-- ===== src/Replay/Runner.antt =====
-- `Runner` of internal/replay/replay.go: the recorded exchanges are replayed one after the other.
pub mod InOrder
use graybox_core.Dict.{keys}
use graybox_core.Failure.{Error, Result, ok, err}
use graybox_core.Platform.{Platform}
use graybox_core.Prelude.{
  ℕ, Bool, true, false, List, [], ◌∷◌, ◌++◌, Option, none, some, ltb, if◌then◌else◌,
}
use graybox_core.Recording.{Headers, Exchange, Response, Filter, Summary}
use graybox_core.Replay.Attempt.{HttpClient, Settings, execute}
use graybox_core.Replay.Execution.{Execution, Visit}
use graybox_core.Replay.Replacements.{Replacements}
use graybox_core.Sanitize.Capture.{redact_url, capture_body}
use graybox_core.Sanitize.Markers.{with_recorded_markers, with_recorded_query}
use graybox_core.Sanitize.Rules.{Rules, apply_headers}
use graybox_core.Text.{Str}
use graybox_core.Url.{Url}

-- `Source`, which the replay only reads.
pub record Source : Type 0 where
  pub get : ℕ → Result Exchange
  pub list : Filter → Result (List Summary)

pub record Runner : Type 0 where
  pub source : Source
  pub client : HttpClient
  pub response_body_limit : ℕ
  pub request_header_overrides : Headers
  pub replacements : Replacements
  pub redaction : Rules

-- `DefaultResponseBodyCaptureLimit`: 10 << 20.
abbrev pub default_response_body_capture_limit : ℕ
default_response_body_capture_limit = 10485760

-- `responseBodyLimit`
unfoldable pub response_body_limit : Runner → ℕ
response_body_limit r =
    if ltb 0 r.response_body_limit
    then r.response_body_limit
    else default_response_body_capture_limit

-- `recording.Filter{}`
abbrev pub every : Filter
every = record { status = 0; method = []; path = [] }

-- The state after a failing step, or the rest of the loop.
abbrev pub unless_err : {S : Type 0} → S × Option Error → (S → S × Option Error) → S × Option Error
unless_err (s, none) rest = rest s
unless_err (s, some e) rest = (s, some e)

module _ (go : Platform) (r : Runner) (capture : Bool) where
  -- The policy for one exchange.
  unfoldable pub exchange_policy : Exchange → Rules
  exchange_policy exchange =
      let policy = record r.redaction { query = r.redaction.query ++ keys r.replacements.query } in
      if capture
      then with_recorded_query go
          (with_recorded_markers go policy exchange.response.headers exchange.response.body)
          exchange.request.url
      else policy

  -- The in-memory baseline that the visitor sees.
  unfoldable pub normalized : Exchange → Exchange
  normalized exchange =
      let policy = exchange_policy exchange in
      let (body, size, complete) =
        capture_body go policy exchange.response.body exchange.response.headers
          exchange.response.observed_size exchange.response.truncated exchange.response.complete in
      if capture
      then record exchange {
        request = record exchange.request { url = redact_url go policy exchange.request.url };
        response = record exchange.response {
          headers = apply_headers policy exchange.response.headers;
          body = body;
          observed_size = size;
          complete = complete;
        };
      }
      else exchange

  -- `runExchange` but for the visit: what the visitor is called with.
  unfoldable pub attempt : Option Url → Exchange → Exchange × Execution
  attempt target exchange = (
    normalized exchange,
    execute go r.client (exchange_policy exchange)
        (record {
          overrides = r.request_header_overrides;
          replacements = r.replacements;
          body_limit = response_body_limit r;
          capture = capture;
        })
        target exchange,
  )

  module _ (S : Type 0) (visit : Visit S) (target : Option Url) where
    -- `runExchange`
    unfoldable pub run_exchange : S → Exchange → S × Option Error
    run_exchange s exchange =
        let (baseline, execution) = attempt target exchange in visit s baseline execution

    -- `r.Source.Get`, then `runExchange`.
    unfoldable pub run_id : S → ℕ → S × Option Error
    run_id s id = elim (r.source.get id) [
      | err e ↦ (s, some e)
      | ok exchange ↦ run_exchange s exchange
    ]

    -- The loop over the summaries.
    unfoldable pub run_summaries : List Summary → S → S × Option Error
    unfolding run_id
    run_summaries [] s = (s, none)
    run_summaries (summary ∷ summaries) s =
        unless_err (run_id s summary.id) (run_summaries summaries)

    -- `runEach`
    unfoldable pub run_each : Option ℕ → S → S × Option Error
    run_each (some id) s = run_id s id
    run_each none s = elim (r.source.list every) [
      | err e ↦ (s, some e)
      | ok summaries ↦ run_summaries summaries s
    ]
