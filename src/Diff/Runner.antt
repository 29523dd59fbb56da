-- ===== src/Diff/Runner.antt =====
-- internal/diff/runner.go: replaying a recording and comparing each execution with its baseline.
pub mod Results
pub mod Recorded
use graybox_core.Diff.Compare.{compare}
use graybox_core.Diff.Domain.{Comparison, ExchangeResult, Report}
use graybox_core.Diff.Location.{Rules}
use graybox_core.Failure.{Error, failure}
use graybox_core.Json.Codec.{Codec}
use graybox_core.Prelude.{ℕ, List, [], ◌∷◌, ◌++◌, Option, none, some}
use graybox_core.Recording.{Exchange, Response}
use graybox_core.Replay.Execution.{Execution, Replayer}
use graybox_core.Text.{Str, codes}
use graybox_core.Url.{Url}

-- `result.Err` where there is no response.
unfoldable pub missing_response : Option Error → Error
missing_response (some e) = e
missing_response none = failure (codes "replay completed without an HTTP response")

-- The end of `Run`: an error of the iteration discards the report.
finish : Report × Option Error → Report × Option Error
finish (report, none) = (report, none)
finish (report, some e) = (record { results = [] }, some e)

module _ (sha256 : Str → Str) (json : Codec) (rules : Rules) where
  -- The part of `compareExecution` behind the result's first fields.
  unfoldable pub execution_verdict :
      Response → Option Response → Option Error → Comparison × Option Error
  execution_verdict baseline none err = (record { differences = [] }, some (missing_response err))
  execution_verdict baseline (some response) err =
      let (comparison, comparison_err) = compare sha256 json baseline response rules in
      elim err [ some e ↦ (comparison, some e) | none ↦ (comparison, comparison_err) ]

  -- `compareExecution`
  unfoldable pub compare_execution : Exchange → Execution → ExchangeResult
  compare_execution baseline execution =
      let (comparison, err) =
        execution_verdict baseline.response execution.response execution.err in
      record {
        exchange_id = baseline.id;
        method = baseline.request.method;
        path = baseline.request.url;
        baseline_duration = baseline.duration;
        current_duration = execution.duration;
        comparison = comparison;
        err = err;
      }

  -- The callback that `Run` passes on: it appends a result and never stops the iteration.
  unfoldable pub collect : Report → Exchange → Execution → Report × Option Error
  collect report baseline execution =
      (record { results = report.results ++ compare_execution baseline execution ∷ [] }, none)

  -- `Runner.Run`
  unfoldable pub run : Replayer → Url → Option ℕ → Report × Option Error
  unfolding finish
  run replayer target id =
      finish (replayer.run_each Report target id collect (record { results = [] }))
