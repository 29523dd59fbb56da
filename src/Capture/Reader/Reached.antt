-- ===== src/Capture/Reader/Reached.antt =====
-- What a request body's reader has kept after any sequence of reads.
use graybox_core.Capture.Kept.{Keeps, captured_body}
use graybox_core.Capture.Reader.{
  ReadEnd, more, eof, failed, CaptureReader, new_capture_reader, capture_read, note_end, read,
}
use graybox_core.Prelude.{
  ℕ, ◌+◌, ◌≡◌, Bool, true, [], ◌∷◌, ◌++◌, length, ltb, if◌then◌else◌, arith, refl, length-append,
  either_branch,
}
use graybox_core.Text.Prefix.{take_nil}
use graybox_core.Text.{Str}
use mathlib.Core.List.{append-nil}

-- The reader after calls of `Read` that returned the bytes `seen`.
pub data ReadSoFar (limit : ℕ) : Str → CaptureReader → Type 0 where
  begin : (is_open : Bool) → ReadSoFar limit [] (new_capture_reader is_open limit)
  next :
      {seen : Str} {r : CaptureReader} (content : Str) (end : ReadEnd)
      → ReadSoFar limit seen r
      → ReadSoFar limit (seen ++ (read r content end).1) (read r content end).0

abbrev Holds : ℕ → Str → CaptureReader → Type 0
Holds limit seen r = (r.limit ≡ limit) × Keeps limit seen r.size r.body

note_end-Holds :
    (limit : ℕ) (seen : Str) (r : CaptureReader) (end : ReadEnd)
    → Holds limit seen r
    → Holds limit seen (note_end r end)
unfolding note_end
note_end-Holds limit seen r more h = h
note_end-Holds limit seen r eof h = h
note_end-Holds limit seen r (failed e) h = h

positive : (c : ℕ) (s : Str) → ltb 0 (length (c ∷ s)) ≡ true
positive c s = ground arith

capture_read-Holds :
    (limit : ℕ) (seen content : Str) (r : CaptureReader)
    → Holds limit seen r
    → Holds limit
        (seen ++ content)
        (capture_read (record r { size = r.size + length content }) content)
unfolding capture_read
capture_read-Holds limit seen content r h = (
  h.0,
  record {
    counted = omega (arith, h.1.counted, length-append seen content);
    first = captured_body limit seen content r.body r.limit h.1.first h.0;
  },
)

read-Holds :
    (limit : ℕ) (seen content : Str) (end : ReadEnd) (r : CaptureReader)
    → Holds limit seen r
    → Holds limit (seen ++ (read r content end).1) (read r content end).0
unfolding read
read-Holds limit seen content end r h =
    either_branch (λ (r', returned, _). Holds limit (seen ++ returned) r') r.is_open _ _
      (note_end-Holds limit (seen ++ content) _ end (opened content)) (rw (append-nil seen) h)
  where
    opened :
        (content : Str)
        → Holds limit (seen ++ content) (
            if ltb 0 (length content)
            then capture_read (record r { size = r.size + length content }) content
            else r)
    opened [] = rw (append-nil seen) h
    opened (c ∷ content) = rw (positive c content) (capture_read-Holds limit seen (c ∷ content) r h)

ReadSoFar-Holds :
    (limit : ℕ) (seen : Str) (r : CaptureReader) → ReadSoFar limit seen r → Holds limit seen r
ReadSoFar-Holds limit _ _ (begin is_open) =
    (refl, record { counted = refl; first = rw (take_nil limit) refl })
ReadSoFar-Holds limit _ _ (next {seen} {r} content end h) =
    read-Holds limit seen content end r (ReadSoFar-Holds limit seen r h)

-- However the body is read, the reader counts the bytes that went to the transport and keeps the
-- first `limit` of them.
pub ReadSoFar-Keeps :
    (limit : ℕ) (seen : Str) (r : CaptureReader)
    → ReadSoFar limit seen r
    → Keeps limit seen r.size r.body
ReadSoFar-Keeps limit seen r h = (ReadSoFar-Holds limit seen r h).1
