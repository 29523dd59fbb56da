-- ===== src/Capture/Proxy/Persisted.antt =====
-- What the recorder is given.
use graybox_core.Capture.Kept.{Keeps-IsConsistent}
use graybox_core.Capture.Proxy.{
  Proxy, OutboundRequest, snapshot, Inbound, Recovered, returned, aborted, panicked,
  response_complete, stream_error_text, is_unexplained, explain, captured_exchange,
  persist_exchange, finish_serving,
}
use graybox_core.Capture.Reader.Reached.{ReadSoFar, ReadSoFar-Keeps}
use graybox_core.Capture.Reader.{CaptureReader, read_complete, read_truncated}
use graybox_core.Capture.Writer.Reached.{Reached, next, fails, Reached-Keeps}
use graybox_core.Capture.Writer.{CaptureWriter, write_truncated}
use graybox_core.Failure.{Error, Result, ok}
use graybox_core.Platform.{Platform}
use graybox_core.Prelude.{ℕ, Bool, ◌≡◌, List, some, length, either_branch}
use graybox_core.Recording.{Headers, Exchange}
use graybox_core.Sanitize.Capture.Sizes.{capture_body-body_metadata}
use graybox_core.Storage.Metadata.{body_metadata, body_metadata_iff}
use mathlib.Core.Option.{some-injective}
use mathlib.Core.Path.{subst}
use graybox_core.Text.{Str}

-- The storage accepts the sizes of both bodies.
abbrev pub Storable : Exchange → Type 0
Storable e =
    (body_metadata e.request.body e.request.observed_size e.request.truncated
      ≡ ok (length e.request.body))
    × (body_metadata e.response.body e.response.observed_size e.response.truncated
        ≡ ok (length e.response.body))

module _ (go : Platform) where
  captured_exchange-Storable :
      (p : Proxy) (request : Inbound) (started ended limit : ℕ) (seen : Str) (r : CaptureReader)
      (outbound : OutboundRequest) (w : CaptureWriter) (headers : Headers) (complete : Bool)
      → ReadSoFar limit seen r
      → Reached limit w
      → Storable (captured_exchange go p request started ended r outbound w headers complete)
  unfolding captured_exchange read_truncated write_truncated
  captured_exchange-Storable p request started ended limit seen r outbound w headers complete h k =
      (
        capture_body-body_metadata go p.redaction r.body (snapshot outbound) r.size
            (read_truncated r) (read_complete r request.content_length)
            ((body_metadata_iff r.body r.size (read_truncated r)).1
              (Keeps-IsConsistent limit seen r.size r.body (ReadSoFar-Keeps limit seen r h))),
        capture_body-body_metadata go p.redaction w.body headers w.size (write_truncated w) complete
            ((body_metadata_iff w.body w.size (write_truncated w)).1
              (Keeps-IsConsistent limit w.client.passed w.size w.body (Reached-Keeps limit w k))),
      )

explain-Reached :
    (p : Proxy) (recovered : Recovered) (limit : ℕ) (w : CaptureWriter)
    → Reached limit w
    → Reached limit (explain p recovered w).0
unfolding explain
explain-Reached p recovered limit w h =
    either_branch {A = CaptureWriter × List Error} (λ x. Reached limit x.0)
      (is_unexplained recovered w) _ _ (next h (fails (stream_error_text p w))) h

some_eq : (P : Exchange → Type 0) (a b : Exchange) → P a → some a ≡ some b → P b
some_eq P a b h e = subst P (some-injective a b e) h

module _ (go : Platform) (add : Exchange → Result ℕ) (p : Proxy) (request : Inbound)
    (started ended limit : ℕ) (seen : Str) (r : CaptureReader) (outbound : OutboundRequest)
    (w : CaptureWriter) (headers : Headers) where
  -- However the bodies of an exchange passed through the proxy, however the request ended, and
  -- whatever is redacted, the storage accepts the sizes of the exchange given to the recorder.
  pub finish_serving-Storable :
      (recovered : Recovered) (e : Exchange)
      → ReadSoFar limit seen r
      → Reached limit w
      → (finish_serving go add p request started ended r outbound w headers recovered).exchange
        ≡ some e
      → Storable e
  unfolding finish_serving persist_exchange
  finish_serving-Storable panicked e h k x = cc
  finish_serving-Storable returned e h k x =
      some_eq Storable _ e
        (captured_exchange-Storable go p request started ended limit seen r outbound
          (explain p returned w).0 headers (response_complete returned w) h
          (explain-Reached p returned limit w k))
        x
  finish_serving-Storable aborted e h k x =
      some_eq Storable _ e
        (captured_exchange-Storable go p request started ended limit seen r outbound
          (explain p aborted w).0 headers (response_complete aborted w) h
          (explain-Reached p aborted limit w k))
        x
