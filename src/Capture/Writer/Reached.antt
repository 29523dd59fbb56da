-- ===== src/Capture/Writer/Reached.antt =====
-- What a response's writer has kept after any sequence of calls.
use graybox_core.Capture.Kept.{Keeps, captured_body}
use graybox_core.Capture.Writer.{
  CaptureWriter, new_capture_writer, write_header, commit, capture_write, write, flush,
}
use graybox_core.Prelude.{ℕ, ◌≡◌, Option, arith, refl, length-append}
use graybox_core.Text.Prefix.{take_nil}
use graybox_core.Text.{Str}

-- One call by the handler behind the proxy.
pub data WriterStep (w : CaptureWriter) : CaptureWriter → Type 0 where
  writes_header : (status : ℕ) → WriterStep w (write_header w status)
  writes : (content : Str) (n : ℕ) (err : Option Str) → WriterStep w (write w content n err)
  flushes : WriterStep w (flush w)
  fails : (message : Str) → WriterStep w (record w { proxy_error = message })

pub data Reached (limit : ℕ) : CaptureWriter → Type 0 where
  begin : Reached limit (new_capture_writer limit)
  next : {v w : CaptureWriter} → Reached limit v → WriterStep v w → Reached limit w

abbrev Holds : ℕ → CaptureWriter → Type 0
Holds limit w = (w.limit ≡ limit) × Keeps limit w.client.passed w.size w.body

write_header-Holds :
    (limit : ℕ) (w : CaptureWriter) (status : ℕ)
    → Holds limit w
    → Holds limit (write_header w status)
unfolding write_header
write_header-Holds limit w status h = ground arith

commit-Holds : (limit : ℕ) (w : CaptureWriter) → Holds limit w → Holds limit (commit w)
unfolding commit
commit-Holds limit w h = ground (arith, write_header-Holds limit w 200 h)

write-Holds :
    (limit : ℕ) (w : CaptureWriter) (content : Str) (n : ℕ) (err : Option Str)
    → Holds limit w
    → Holds limit (write w content n err)
unfolding write capture_write
write-Holds limit w content n err h =
    let k = commit-Holds limit w h in
    (
      k.0,
      record {
        counted = omega (arith, k.1.counted, length-append (commit w).client.passed content);
        first =
            captured_body limit (commit w).client.passed content (commit w).body (commit w).limit
              k.1.first k.0;
      },
    )

WriterStep-Holds :
    (limit : ℕ) {v w : CaptureWriter} → WriterStep v w → Holds limit v → Holds limit w
unfolding flush
WriterStep-Holds limit {v} (writes_header status) h = write_header-Holds limit v status h
WriterStep-Holds limit {v} (writes content n err) h = write-Holds limit v content n err h
WriterStep-Holds limit {v} flushes h = commit-Holds limit v h
WriterStep-Holds limit (fails message) h = h

Reached-Holds : (limit : ℕ) {w : CaptureWriter} → Reached limit w → Holds limit w
Reached-Holds limit begin = (refl, record { counted = refl; first = rw (take_nil limit) refl })
Reached-Holds limit (next r s) = WriterStep-Holds limit s (Reached-Holds limit r)

-- However the response is written, the writer counts the bytes that it handed to the client's writer
-- and keeps the first `limit` of them.
pub Reached-Keeps :
    (limit : ℕ) (w : CaptureWriter) → Reached limit w → Keeps limit w.client.passed w.size w.body
Reached-Keeps limit w r = (Reached-Holds limit r).1
