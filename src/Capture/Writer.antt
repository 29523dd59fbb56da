-- ===== src/Capture/Writer.antt =====
-- `captureWriter` of internal/capture/proxy.go: a response that is written through the proxy.
pub mod Reached
pub mod Statuses
use graybox_core.Prelude.{
  ℕ, ◌+◌, ◌-◌, Bool, true, false, not, ◌&&◌, List, [], ◌∷◌, ◌++◌, Option, none, some, ltb, leb,
  ◌==◌, if◌then◌else◌, length, take,
}
use graybox_core.Text.{Str, codes}

-- The `http.ResponseWriter` behind the proxy's: the statuses and the bytes it was given.
pub record Client : Type 0 where
  pub statuses : List ℕ
  pub passed : Str

pub record CaptureWriter : Type 0 where
  pub client : Client
  pub status : ℕ
  pub wrote_header : Bool
  pub limit : ℕ
  pub size : ℕ
  pub body : Str
  pub proxy_error : Str
  pub write_err : Option Str

-- The writer that `ServeHTTP` sets up.
abbrev pub new_capture_writer : ℕ → CaptureWriter
new_capture_writer limit = record {
  client = record { statuses = []; passed = [] };
  status = 200;
  wrote_header = false;
  limit = limit;
  size = 0;
  body = [];
  proxy_error = [];
  write_err = none;
}

-- `status >= 100 && status < 200 && status != http.StatusSwitchingProtocols`
abbrev pub is_informational : ℕ → Bool
is_informational status = leb 100 status && ltb status 200 && not (status == 101)

-- The call of the embedded writer's `WriteHeader`.
abbrev forward_status : CaptureWriter → ℕ → Client
forward_status w status = record w.client { statuses = w.client.statuses ++ status ∷ [] }

-- `WriteHeader`
unfoldable pub write_header : CaptureWriter → ℕ → CaptureWriter
write_header w status =
    if w.wrote_header
    then w
    else if is_informational status
    then record w { client = forward_status w status }
    else record w { status = status; wrote_header = true; client = forward_status w status }

-- `if !w.wroteHeader { w.WriteHeader(http.StatusOK) }`
unfoldable pub commit : CaptureWriter → CaptureWriter
unfolding write_header
commit w = if w.wrote_header then w else write_header w 200

-- `capture`
unfoldable pub capture_write : CaptureWriter → Str → CaptureWriter
capture_write w content =
    let remaining = w.limit - length w.body in
    record w {
      body =
          if leb remaining 0
          then w.body
          else w.body
            ++ (if ltb remaining (length content) then take remaining content else content);
    }

-- The error that `Write` keeps, where the embedded writer takes `n` bytes and gives `err`.
unfoldable pub note_write : Option Str → ℕ → ℕ → Option Str → Option Str
note_write (some e) n size err = some e
note_write none n size (some e) = some e
note_write none n size none = if ltb n size then some (codes "short write") else none

-- `Write`
unfoldable pub write : CaptureWriter → Str → ℕ → Option Str → CaptureWriter
unfolding commit capture_write note_write
write w content n err =
    let committed = commit w in
    let captured =
      capture_write (record committed { size = committed.size + length content }) content in
    record captured {
      client = record captured.client { passed = captured.client.passed ++ content };
      write_err = note_write captured.write_err n (length content) err;
    }

-- `Flush`; the flush of the embedded writer itself changes nothing that is kept here.
unfoldable pub flush : CaptureWriter → CaptureWriter
unfolding commit
flush w = commit w

-- `complete`
unfoldable pub write_complete : CaptureWriter → Bool
write_complete w = elim w.write_err [ none ↦ true | some e ↦ false ]

-- `truncated`
unfoldable pub write_truncated : CaptureWriter → Bool
write_truncated w = ltb (length w.body) w.size
