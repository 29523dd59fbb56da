-- ===== src/Replay/Response/Captured.antt =====
-- What the capture keeps of a response body that arrives in chunks.
use graybox_core.Prelude.{
  ℕ, ◌-◌, ◌≡◌, List, [], ◌∷◌, ◌++◌, ltb, length, take, concat_map, arith, refl, length-append, ◌∙◌,
  sym,
}
use mathlib.Core.List.{append-nil, append_assoc}
use graybox_core.Replay.Response.{BodyCapture, write, copy, is_truncated, capture_response_body}
use graybox_core.Text.Prefix.{take_nil, length-take, fitting, take_grows}
use graybox_core.Text.{Str}

-- The state after the bytes `seen`: their number, and their first `limit` bytes.
abbrev pub Captures : ℕ → Str → BodyCapture → Type 0
Captures limit seen c = (c.limit ≡ limit) × (c.observed ≡ length seen) × (c.body ≡ take limit seen)

write-Captures :
    (limit : ℕ) (seen chunk : Str) (c : BodyCapture)
    → Captures limit seen c
    → Captures limit (seen ++ chunk) (write c chunk)
unfolding write
write-Captures limit seen chunk c h = (
  h.0,
  omega (arith, h.1, length-append seen chunk),
  fitting (c.limit - length c.body) c.body chunk
      ∙ take_grows limit seen chunk c.body c.limit h.2 h.0,
)

copy-Captures :
    (limit : ℕ) (seen : Str) (chunks : List Str) (c : BodyCapture)
    → Captures limit seen c
    → Captures limit (seen ++ concat_map (λ x. x) chunks) (copy c chunks)
unfolding copy
copy-Captures limit seen [] c h = rw (append-nil seen) h
copy-Captures limit seen (chunk ∷ chunks) c h =
    rw (sym (append_assoc seen chunk (concat_map (λ x. x) chunks))) (
      copy-Captures limit (seen ++ chunk) chunks (write c chunk)
        (write-Captures limit seen chunk c h))

-- However the response body is cut into chunks, the capture keeps its first `limit` bytes, counts
-- all of them, and is marked truncated exactly when the body is longer than the limit.
pub capture_response_body_lem :
    (chunks : List Str) (limit : ℕ)
    → capture_response_body chunks limit ≡ (
      take limit (concat_map (λ x. x) chunks),
      length (concat_map (λ x. x) chunks),
      ltb limit (length (concat_map (λ x. x) chunks)),
    )
unfolding capture_response_body is_truncated
capture_response_body_lem chunks limit =
    let h =
      copy-Captures limit [] chunks (record { limit = limit; observed = 0; body = [] })
        (refl, refl, rw (take_nil limit) refl) in
    ground (arith, h.1, h.2, length-take limit (concat_map (λ x. x) chunks))
