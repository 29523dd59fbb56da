-- ===== src/Capture/Proxy.antt =====
-- `Proxy` of internal/capture/proxy.go: what is recorded of an exchange, and which errors are
-- reported. The reverse proxy and the transport are those of net/http; their calls of the reader and
-- of the writer are given by the state these are left in.
pub mod Handled
pub mod Persisted
pub mod Reported
use graybox_core.Capture.Reader.{CaptureReader, read_complete, read_truncated}
use graybox_core.Capture.Writer.{
  CaptureWriter, write_header, write, write_complete, write_truncated,
}
use graybox_core.Failure.{Error, failure, wrap, Result, ok, err}
use graybox_core.Platform.{Platform}
use graybox_core.Prelude.{
  ℕ, ◌+◌, ◌-◌, ◌%◌, ◌^◌, Bool, true, false, not, ◌&&◌, List, [], ◌∷◌, ◌++◌, Option, none, some,
  if◌then◌else◌,
}
use graybox_core.Recording.{Headers, Exchange}
use graybox_core.Sanitize.Capture.{redact_url, capture_body}
use graybox_core.Sanitize.Rules.{Rules, apply_headers, configured}
use graybox_core.Text.{Str, codes, equal}

-- `ErrorHandlers`: is there a handler?
pub record ErrorHandlers : Type 0 where
  pub transport : Bool
  pub persistence : Bool

pub record Proxy : Type 0 where
  pub errors : ErrorHandlers
  pub body_limit : ℕ
  pub redaction : Rules
  pub persistence_failures : ℕ

-- `outboundRequest`; `none` is nil.
abbrev pub OutboundRequest : Type 0
OutboundRequest = Option Headers

-- `setHeaders`, which `RoundTrip` calls with the headers of the outgoing request.
unfoldable pub set_headers : OutboundRequest → Headers → OutboundRequest
set_headers r headers = some headers

unfoldable pub snapshot : OutboundRequest → Headers
snapshot none = []
snapshot (some headers) = headers

-- What is read of the inbound `http.Request`; the content length is none where it is not known.
pub record Inbound : Type 0 where
  pub method : Str
  pub request_uri : Str
  pub content_length : Option ℕ

-- An error handler's calls.
abbrev pub report : Bool → Error → List Error
report handler e = if handler then e ∷ [] else []

-- `reverse.ErrorHandler`; `n` and `write_err` are what the client's writer gives for the body that
-- `http.Error` writes.
unfoldable pub handle_error :
    Proxy → CaptureWriter → Str → ℕ → Option Str → CaptureWriter × List Error
handle_error p w message n write_err =
    let shown = if configured p.redaction then codes "upstream transport failed" else message in
    (
      write (write_header (record w { proxy_error = shown }) 502) (codes "Bad Gateway" ++ 10 ∷ []) n
          write_err,
      report p.errors.transport (wrap (codes "forward request") (failure shown)),
    )

-- What the handler behind the proxy came to: it returned, it raised `http.ErrAbortHandler`, or it
-- panicked otherwise.
pub data Recovered : Type 0 where
  returned aborted panicked : Recovered

abbrev is_returned : Recovered → Bool
is_returned returned = true
is_returned aborted = false
is_returned panicked = false

-- `responseComplete`
unfoldable pub response_complete : Recovered → CaptureWriter → Bool
unfolding write_complete
response_complete recovered w = is_returned recovered && write_complete w

-- `streamErr`
unfoldable pub stream_error : Proxy → CaptureWriter → Error
stream_error p w =
    if configured p.redaction then failure (codes "response stream failed") else (elim w.write_err [
      | some e ↦ wrap (codes "write response") (failure e)
      | none ↦ failure (codes "response stream aborted")
    ])

-- `streamErr.Error()`
unfoldable pub stream_error_text : Proxy → CaptureWriter → Str
stream_error_text p w =
    if configured p.redaction then codes "response stream failed" else (elim w.write_err [
      | some e ↦ codes "write response: " ++ e
      | none ↦ codes "response stream aborted"
    ])

-- `!responseComplete && captured.proxyError == ""`
unfoldable pub is_unexplained : Recovered → CaptureWriter → Bool
unfolding response_complete equal
is_unexplained recovered w = not (response_complete recovered w) && equal w.proxy_error []

-- What the deferred function of `ServeHTTP` does before `persistExchange`.
unfoldable pub explain : Proxy → Recovered → CaptureWriter → CaptureWriter × List Error
unfolding is_unexplained
explain p recovered w =
    if is_unexplained recovered w
    then (
      record w { proxy_error = stream_error_text p w },
      report p.errors.transport (stream_error p w),
    )
    else (w, [])

module _ (go : Platform) where
  -- The exchange that `persistExchange` makes, for the response headers at its end.
  unfoldable pub captured_exchange :
      Proxy
      → Inbound
      → ℕ
      → ℕ
      → CaptureReader
      → OutboundRequest
      → CaptureWriter
      → Headers
      → Bool
      → Exchange
  captured_exchange p request started ended r outbound w headers complete =
      let (request_body, request_size, request_complete) =
        capture_body go p.redaction r.body (snapshot outbound) r.size (read_truncated r)
          (read_complete r request.content_length) in
      let (response_body, response_size, response_kept) =
        capture_body go p.redaction w.body headers w.size (write_truncated w) complete in
      record {
        id = 0;
        protocol = codes "http";
        started_at = started;
        ended_at = ended;
        duration = ended - started;
        proxy_error = w.proxy_error;
        request = record {
          method = request.method;
          url = redact_url go p.redaction request.request_uri;
          headers = apply_headers p.redaction (snapshot outbound);
          body = request_body;
          observed_size = request_size;
          truncated = read_truncated r;
          complete = request_complete;
        };
        response = record {
          status_code = w.status;
          headers = apply_headers p.redaction headers;
          body = response_body;
          observed_size = response_size;
          truncated = write_truncated w;
          complete = response_kept;
        };
      }

-- The end of `persistExchange`, where `Recorder.Add` gives `added`; the counter has 64 bits.
unfoldable pub count_failure : Proxy → Result ℕ → Proxy × List Error
count_failure p (ok id) = (p, [])
count_failure p (err e) = (
  record p { persistence_failures = (p.persistence_failures + 1) % 2 ^ 64 },
  report p.errors.persistence (
      wrap (codes "record exchange")
        (if configured p.redaction then failure (codes "persistence failed") else e)),
)

-- What a served request leaves behind: the proxy, the exchange given to the recorder, the errors
-- reported, and whether the handler's panic goes on.
pub record Served : Type 0 where
  pub proxy : Proxy
  pub exchange : Option Exchange
  pub transport : List Error
  pub persistence : List Error
  pub panics : Bool

module _ (go : Platform) (add : Exchange → Result ℕ) where
  -- `persistExchange`, with what the deferred function reported before it.
  unfoldable pub persist_exchange :
      Proxy
      → Inbound
      → ℕ
      → ℕ
      → CaptureReader
      → OutboundRequest
      → CaptureWriter
      → Headers
      → Bool
      → List Error
      → Bool
      → Served
  persist_exchange p request started ended r outbound w headers complete transport panics =
      let exchange = captured_exchange go p request started ended r outbound w headers complete in
      let (counted, persistence) = count_failure p (add exchange) in
      record {
        proxy = counted;
        exchange = some exchange;
        transport = transport;
        persistence = persistence;
        panics = panics;
      }

  -- The deferred function of `ServeHTTP`.
  unfoldable pub finish_serving :
      Proxy
      → Inbound
      → ℕ
      → ℕ
      → CaptureReader
      → OutboundRequest
      → CaptureWriter
      → Headers
      → Recovered
      → Served
  finish_serving p request started ended r outbound w headers panicked = record {
    proxy = p;
    exchange = none;
    transport = [];
    persistence = [];
    panics = true;
  }
  finish_serving p request started ended r outbound w headers returned =
      let (explained, transport) = explain p returned w in
      persist_exchange p request started ended r outbound explained headers
        (response_complete returned w) transport false
  finish_serving p request started ended r outbound w headers aborted =
      let (explained, transport) = explain p aborted w in
      persist_exchange p request started ended r outbound explained headers
        (response_complete aborted w) transport true
