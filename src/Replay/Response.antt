-- ===== src/Replay/Response.antt =====
-- `responseBodyCapture` of internal/replay/replay.go: reading a response body up to a limit.
pub mod Captured
use graybox_core.Prelude.{ℕ, ◌+◌, ◌-◌, Bool, List, [], ◌∷◌, ◌++◌, ltb, if◌then◌else◌, length, take}
use graybox_core.Text.{Str}

-- `responseBodyCapture`
pub record BodyCapture : Type 0 where
  pub limit : ℕ
  pub observed : ℕ
  pub body : Str

-- `Write`
unfoldable pub write : BodyCapture → Str → BodyCapture
write c chunk =
    let remaining = c.limit - length c.body in
    record c {
      observed = c.observed + length chunk;
      body =
          if ltb 0 remaining
          then c.body ++ (if ltb remaining (length chunk) then take remaining chunk else chunk)
          else c.body;
    }

-- `io.Copy`, which writes one chunk after the other.
unfoldable pub copy : BodyCapture → List Str → BodyCapture
unfolding write
copy c [] = c
copy c (chunk ∷ chunks) = copy (write c chunk) chunks

-- `truncated`
unfoldable pub is_truncated : BodyCapture → Bool
is_truncated c = ltb (length c.body) c.observed

-- `captureResponseBody`, for the chunks that the body gives before it ends or fails.
unfoldable pub capture_response_body : List Str → ℕ → Str × ℕ × Bool
unfolding copy is_truncated
capture_response_body chunks limit =
    let c = copy (record { limit = limit; observed = 0; body = [] }) chunks in
    (c.body, c.observed, is_truncated c)
