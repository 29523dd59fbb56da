-- ===== src/Replay/Attempt.antt =====
-- `execute` of internal/replay/replay.go: one recorded request is sent again.
pub mod Sent
use graybox_core.Failure.{Error, failure, wrap, Result, ok, err, ◌>>=◌}
use graybox_core.Platform.{Platform}
use graybox_core.Prelude.{
  ℕ, Bool, true, false, not, ◌&&◌, List, [], ◌∷◌, ◌++◌, Option, none, some, ltb, if◌then◌else◌,
  length,
}
use graybox_core.Recording.{Headers, Request, Response, Exchange}
use graybox_core.Replay.Address.{build_url}
use graybox_core.Replay.Execution.{Execution}
use graybox_core.Replay.Headers.{copy_replay_headers, apply_request_header_overrides}
use graybox_core.Replay.Replacements.Applied.{apply}
use graybox_core.Replay.Replacements.{Outgoing, Replacements}
use graybox_core.Replay.Response.{capture_response_body}
use graybox_core.Sanitize.Capture.{redact_url, query_withheld, capture_body}
use graybox_core.Sanitize.Redact.{redacted_value}
use graybox_core.Sanitize.Rules.{Rules, apply_headers, configured}
use graybox_core.Text.{Str, codes, equal}
use graybox_core.Url.{Url}

-- An `http.Response` with the chunks that its body gives, and the error that ends them.
pub record Reply : Type 0 where
  pub status_code : ℕ
  pub status : Str
  pub header : Headers
  pub chunks : List Str
  pub body_err : Option Error

-- What a replay uses of net/http: `http.NewRequestWithContext`, of which the URL is kept, and
-- `Client.Do`, with its duration.
pub record HttpClient : Type 0 where
  pub new_request : Str → Str → Result Url
  pub send : Str → Outgoing → Str → ℕ × Result Reply

-- The arguments of `execute` that are the same for every exchange of a run.
pub record Settings : Type 0 where
  pub overrides : Headers
  pub replacements : Replacements
  pub body_limit : ℕ
  pub capture : Bool

-- `executionError`
unfoldable pub execution_error : Str → Error → Rules → Error
execution_error operation e policy =
    if configured policy
    then failure (operation ++ codes " failed (details withheld by redaction policy)")
    else wrap operation e

-- The result before anything is sent.
abbrev pub unsent : Exchange → Str → Str → Option Error → Execution
unsent exchange path target_url e = record {
  exchange_id = exchange.id;
  method = exchange.request.method;
  path = path;
  target_url = target_url;
  status = [];
  duration = 0;
  response = none;
  err = e;
}

module _ (go : Platform) (client : HttpClient) (redaction : Rules) where
  -- The tests on the recorded request.
  unfoldable pub refusal : Url → Request → Option Error
  refusal url request =
      if ltb 0 (length redaction.query) && query_withheld go url.raw_query
      then some (failure (codes "cannot replay exchange: request query was withheld by redaction"))
      else if request.truncated
      then some (failure (codes "cannot replay exchange: request body was truncated"))
      else if not request.complete
      then if equal request.body redacted_value
        then some (failure (codes "cannot replay exchange: request body was withheld by redaction"))
        else some (failure (codes "cannot replay exchange: request body was incomplete"))
      else none

  -- The request that is sent, from `http.NewRequestWithContext` to `replacements.apply`.
  unfoldable pub build_request : Settings → Url → Request → Result (Outgoing × Str)
  build_request settings url request =
      elim (client.new_request request.method (go.url_string url)) [
        | err e ↦ err (execution_error (codes "build replay request") e redaction)
        | ok parsed ↦
            (let header =
                apply_request_header_overrides (copy_replay_headers [] request.headers)
                  settings.overrides in
              elim (apply go settings.replacements (record { url = parsed; header = header })
                request.body) [
                  | err e ↦ err (wrap (codes "replace replay request") e)
                  | ok sent ↦ ok sent
                ])
      ]

  -- All that comes before `client.Do`.
  unfoldable pub prepare : Settings → Url → Request → Result (Outgoing × Str)
  prepare settings url request = elim (refusal url request) [
    | some e ↦ err e
    | none ↦ build_request settings url request
  ]

  -- The error of reading the response's body.
  unfoldable pub read_error : Option Error → Option Error
  read_error none = none
  read_error (some e) = some (execution_error (codes "read replay response") e redaction)

  abbrev is_none : Option Error → Bool
  is_none none = true
  is_none (some e) = false

  -- The response where its body is only drained, and where it is captured.
  unfoldable pub observed_response : Settings → Reply → Response
  observed_response settings reply =
      let (content, size, truncated) = capture_response_body reply.chunks settings.body_limit in
      let (body, observed, complete) =
        capture_body go redaction content reply.header size truncated (is_none reply.body_err) in
      if settings.capture
      then record {
        status_code = reply.status_code;
        headers = apply_headers redaction reply.header;
        body = body;
        observed_size = observed;
        truncated = truncated;
        complete = complete;
      }
      else record {
        status_code = reply.status_code;
        headers = [];
        body = [];
        observed_size = 0;
        truncated = false;
        complete = is_none reply.body_err;
      }

  -- The result after `client.Do`.
  unfoldable pub receive : Settings → Execution → ℕ × Result Reply → Execution
  receive settings result (duration, err e) = record result {
    duration = duration;
    err = some (execution_error (codes "send replay request") e redaction);
  }
  receive settings result (duration, ok reply) = record result {
    duration = duration;
    status = reply.status;
    response = some (observed_response settings reply);
    err = read_error reply.body_err;
  }

  -- `execute`
  unfoldable pub execute : Settings → Option Url → Exchange → Execution
  execute settings target exchange =
      let path = redact_url go redaction exchange.request.url in
      elim (build_url go target exchange.request.url) [
        | err e ↦
            unsent exchange path [] (some (execution_error (codes "build replay URL") e redaction))
        | ok url ↦
            (let target_url = redact_url go redaction (go.url_string url) in
              elim (prepare settings url exchange.request) [
                | err e ↦ unsent exchange path target_url (some e)
                | ok (sent, content) ↦
                    receive settings (unsent exchange path target_url none)
                      (client.send exchange.request.method sent content)
              ])
      ]
