-- ===== src/Tests/CaptureRuns.antt =====
-- internal/capture on small inputs.
use graybox_core.Capture.Proxy.Handled.{
  IsGeneric, IsGenericText, Handled, started, wrote_status, transport_failed,
}
use graybox_core.Capture.Proxy.Persisted.{Storable, finish_serving-Storable}
use graybox_core.Capture.Proxy.Reported.{
  OnlyPersistenceFailed, finish_serving-IsGeneric, finish_serving_incomplete,
}
use graybox_core.Capture.Proxy.{
  Proxy, Inbound, returned, aborted, explain, response_complete, captured_exchange,
  persist_exchange, handle_error, finish_serving,
}
use graybox_core.Capture.Reader.Reached.{ReadSoFar, begin, next}
use graybox_core.Capture.Reader.{CaptureReader, new_capture_reader, eof, read}
use graybox_core.Capture.Writer.Reached.{Reached, writes_header, writes}
use graybox_core.Capture.Writer.Statuses.{IsOrderly, Reached-IsOrderly}
use graybox_core.Capture.Writer.{CaptureWriter, new_capture_writer, write_header, write}
use graybox_core.Failure.{Error, failure, Result, err}
use graybox_core.Prelude.{ℕ, true, false, ◌≡◌, ◌≢◌, inl, refl, List, [], ◌∷◌, ◌++◌, All, none, some}
use graybox_core.Recording.{Exchange}
use graybox_core.Sanitize.Rules.{configured}
use graybox_core.Tests.Fixtures.{plain_platform, no_policy, header_policy}
use graybox_core.Text.{codes}

abbrev uploaded : CaptureReader
uploaded = (read (new_capture_reader true 3) (codes "abcde") eof).0

uploaded-ReadSoFar : ReadSoFar 3 (codes "abcde") uploaded
unfolding read
uploaded-ReadSoFar = next (codes "abcde") eof (begin true)

-- An early hint, and then a body, which commits 200.
abbrev answered : CaptureWriter
answered = write (write_header (new_capture_writer 3) 103) (codes "hello") 5 none

answered-Reached : Reached 3 answered
answered-Reached =
    Reached.next (Reached.next Reached.begin (writes_header 103)) (writes (codes "hello") 5 none)

answered_statuses : answered.client.statuses ≡ 103 ∷ 200 ∷ []
unfolding write write_header
answered_statuses = refl

abbrev cut_off : CaptureWriter
cut_off = write (new_capture_writer 3) (codes "hello") 2 none

abbrev open_proxy : Proxy
open_proxy = record {
  errors = record { transport = true; persistence = true };
  body_limit = 3;
  redaction = no_policy;
  persistence_failures = 0;
}

abbrev guarded_proxy : Proxy
guarded_proxy = record open_proxy { redaction = header_policy }

abbrev post : Inbound
post = record { method = codes "POST"; request_uri = codes "/a"; content_length = some 5 }

abbrev refuse : Exchange → Result ℕ
refuse e = err (failure (codes "disk full"))

abbrev served : Exchange
served =
    captured_exchange plain_platform open_proxy post 1 9 uploaded none
      (explain open_proxy returned answered).0 [] (response_complete returned answered)

served_lem :
    (finish_serving plain_platform refuse open_proxy post 1 9 uploaded none answered []
      returned).exchange
    ≡ some served
unfolding finish_serving persist_exchange
served_lem = refl

abbrev cut_short : Exchange
cut_short =
    captured_exchange plain_platform guarded_proxy post 1 9 uploaded none
      (explain guarded_proxy aborted cut_off).0 [] (response_complete aborted cut_off)

cut_short_lem :
    (finish_serving plain_platform refuse guarded_proxy post 1 9 uploaded none cut_off []
      aborted).exchange
    ≡ some cut_short
unfolding finish_serving persist_exchange
cut_short_lem = refl

-- An early hint, and then a failure of the transport.
abbrev hinted : CaptureWriter
hinted = write_header (new_capture_writer 3) 103

abbrev refused : CaptureWriter
refused = (handle_error guarded_proxy hinted (codes "dial 10.0.0.7: abc") 2 none).0

abbrev failures : List Error
failures = (handle_error guarded_proxy hinted (codes "dial 10.0.0.7: abc") 2 none).1

refused-Handled : Handled guarded_proxy refused failures
refused-Handled =
    transport_failed (codes "dial 10.0.0.7: abc") 2 none (wrote_status 103 (started 3))

abbrev left_behind : Exchange
left_behind =
    captured_exchange plain_platform guarded_proxy post 1 9 uploaded none
      (explain guarded_proxy aborted refused).0 [] (response_complete aborted refused)

left_behind_lem :
    (finish_serving plain_platform refuse guarded_proxy post 1 9 uploaded none refused []
      aborted).exchange
    ≡ some left_behind
unfolding finish_serving persist_exchange
left_behind_lem = refl

is_guarded : configured guarded_proxy.redaction ≡ true
unfolding configured
is_guarded = refl

Reached-IsOrderly_example : IsOrderly answered
Reached-IsOrderly_example = Reached-IsOrderly 3 answered answered-Reached

finish_serving-Storable_example : Storable served
finish_serving-Storable_example =
    finish_serving-Storable plain_platform refuse open_proxy post 1 9 3 (codes "abcde") uploaded
      none answered [] returned served uploaded-ReadSoFar answered-Reached served_lem

finish_serving-IsGeneric_example :
    All IsGeneric (
      failures
      ++ (finish_serving plain_platform refuse guarded_proxy post 1 9 uploaded none refused []
          aborted).transport)
    × OnlyPersistenceFailed
        (finish_serving plain_platform refuse guarded_proxy post 1 9 uploaded none refused []
          aborted).persistence
    × IsGenericText left_behind.proxy_error
finish_serving-IsGeneric_example =
    finish_serving-IsGeneric plain_platform refuse guarded_proxy post 1 9 uploaded none refused []
      aborted failures left_behind refused-Handled is_guarded left_behind_lem

finish_serving_incomplete_example :
    (cut_short.response.complete ≡ false) × (cut_short.proxy_error ≢ [])
finish_serving_incomplete_example =
    finish_serving_incomplete plain_platform refuse guarded_proxy post 1 9 uploaded none cut_off []
      aborted cut_short (inl refl) cut_short_lem
