-- ===== src/Capture/Reader.antt =====
-- `captureReadCloser` of internal/capture/proxy.go: a request body that is read through the proxy.
pub mod Reached
use graybox_core.Prelude.{
  ℕ, ◌+◌, ◌-◌, Bool, true, false, [], ◌++◌, Option, none, some, ltb, leb, if◌then◌else◌, length,
  take,
}
use graybox_core.Text.{Str}

-- What a call of `Read` ends with: no error, `io.EOF`, or another error.
pub data ReadEnd : Type 0 where
  more eof : ReadEnd
  failed : Str → ReadEnd

-- `captureReadCloser`; `is_open` says that `reader` is not nil.
pub record CaptureReader : Type 0 where
  pub is_open : Bool
  pub limit : ℕ
  pub size : ℕ
  pub body : Str
  pub saw_eof : Bool
  pub read_err : Option Str

-- `newCaptureReadCloser`
abbrev pub new_capture_reader : Bool → ℕ → CaptureReader
new_capture_reader is_open limit = record {
  is_open = is_open;
  limit = limit;
  size = 0;
  body = [];
  saw_eof = false;
  read_err = none;
}

-- `capture`
unfoldable pub capture_read : CaptureReader → Str → CaptureReader
capture_read r content =
    let remaining = r.limit - length r.body in
    record r {
      body =
          if leb remaining 0
          then r.body
          else r.body
            ++ (if ltb remaining (length content) then take remaining content else content);
    }

-- The `switch` of `Read` on the error.
unfoldable pub note_end : CaptureReader → ReadEnd → CaptureReader
note_end r more = r
note_end r eof = record r { saw_eof = true }
note_end r (failed e) = record r { read_err = some e }

-- `Read`, where the reader behind it gives `content` and ends with `end`. It returns the same.
unfoldable pub read : CaptureReader → Str → ReadEnd → CaptureReader × Str × ReadEnd
unfolding capture_read note_end
read r content end =
    if r.is_open
    then (
      note_end
          (if ltb 0 (length content)
            then capture_read (record r { size = r.size + length content }) content
            else r)
          end,
      content,
      end,
    )
    else (record r { saw_eof = true }, [], eof)

-- `complete`; the content length is none where it is negative, that is, unknown.
unfoldable pub read_complete : CaptureReader → Option ℕ → Bool
read_complete r content_length = elim r.read_err [
  | some e ↦ false
  | none ↦ (elim content_length [ some n ↦ leb n r.size | none ↦ r.saw_eof ])
]

-- `truncated`
unfoldable pub read_truncated : CaptureReader → Bool
read_truncated r = ltb (length r.body) r.size
