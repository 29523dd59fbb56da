-- ===== src/Diff/Runner/Results.antt =====
-- What a diff run reports: one result for each visit, and when a result is "equivalent".
use graybox_core.Diff.Compare.Verdict.{Available, compare-err_iff}
use graybox_core.Diff.Compare.{compare}
use graybox_core.Diff.Domain.Counts.{outcome-equivalent_iff}
use graybox_core.Diff.Domain.{Comparison, ExchangeResult, outcome_equivalent, outcome, Report}
use graybox_core.Diff.Location.{Rules, ignores, body_location}
use graybox_core.Diff.Runner.{execution_verdict, compare_execution, collect, run}
use graybox_core.Failure.{Error}
use graybox_core.Json.Codec.{Codec}
use graybox_core.Prelude.{
  ℕ, true, ◌≡◌, ◌⊎◌, refl, sym, ◌∙◌, ap, List, [], ◌∷◌, ◌++◌, Option, none, some, map,
}
use graybox_core.Recording.{Exchange, Response}
use graybox_core.Replay.Execution.{Execution, visit_all, Replayer}
use graybox_core.Text.{Str}
use graybox_core.Url.{Url}
use mathlib.Core.List.{append-nil, append_assoc}

module _ (sha256 : Str → Str) (json : Codec) (rules : Rules) where
  abbrev pub result_of : Exchange × Execution → ExchangeResult
  result_of (exchange, execution) = compare_execution sha256 json rules exchange execution

  visit_all-collect :
      (visits : List (Exchange × Execution)) (ending : Option Error) (report : Report)
      → visit_all Report (collect sha256 json rules) visits ending report
        ≡ (record { results = report.results ++ map result_of visits }, ending)
  unfolding visit_all collect
  visit_all-collect [] ending report = rw (append-nil report.results)
  visit_all-collect ((exchange, execution) ∷ visits) ending report =
      visit_all-collect visits ending _
      ∙ rw (
          append_assoc report.results (compare_execution sha256 json rules exchange execution ∷ [])
            (map result_of visits))

-- A run whose iteration ends without an error reports one result for each visited exchange, in order;
-- otherwise it returns the iteration's error and no result.
pub run_lem :
    (sha256 : Str → Str) (json : Codec) (rules : Rules) (replayer : Replayer) (target : Url)
    (id : Option ℕ)
    → (replayer.ending target id ≡ none
        → run sha256 json rules replayer target id ≡ (
          record { results = map (result_of sha256 json rules) (replayer.visits target id) },
          none,
        ))
      × ((e : Error)
          → replayer.ending target id ≡ some e
          → run sha256 json rules replayer target id ≡ (record { results = [] }, some e))
unfolding run
run_lem sha256 json rules replayer target id =
    let order =
      replayer.in_order Report target id (collect sha256 json rules) (record { results = [] })
      ∙ visit_all-collect sha256 json rules (replayer.visits target id) (replayer.ending target id)
          (record { results = [] }) in
    (λ n. rw (order, n), λ e n. rw (order, n))

-- Without an error there was a response, and the verdict is that of `Compare`.
execution_verdict-none :
    (sha256 : Str → Str) (json : Codec) (rules : Rules) (baseline : Response)
    (response : Option Response) (err : Option Error)
    → (execution_verdict sha256 json rules baseline response err).1 ≡ none
    → (r : Response) × (response ≡ some r)
      × (err ≡ none)
      × (execution_verdict sha256 json rules baseline response err
          ≡ compare sha256 json baseline r rules)
unfolding execution_verdict
execution_verdict-none sha256 json rules baseline none err h = cc
execution_verdict-none sha256 json rules baseline (some r) none h = (r, refl, refl, refl)
execution_verdict-none sha256 json rules baseline (some r) (some e) h = cc

-- What "equivalent" is worth: a response was received, the replay raised no error, and the body is
-- ignored or was available on both sides.
pub compare_execution-equivalent :
    (sha256 : Str → Str) (json : Codec) (rules : Rules) (baseline : Exchange)
    (execution : Execution)
    → outcome (compare_execution sha256 json rules baseline execution) ≡ outcome_equivalent
    → (r : Response) × (execution.response ≡ some r)
      × (execution.err ≡ none)
      × ((compare sha256 json baseline.response r rules).0.differences ≡ [])
      × ((ignores rules (body_location []) ≡ true) ⊎ (Available baseline.response × Available r))
unfolding compare_execution
compare_execution-equivalent sha256 json rules baseline execution h =
    let (no_error, no_difference) =
      (outcome-equivalent_iff (compare_execution sha256 json rules baseline execution)).0 h in
    let (r, received, replayed, verdict) =
      execution_verdict-none sha256 json rules baseline.response execution.response execution.err
        no_error in
    (
      r,
      received,
      replayed,
      ap (λ (v : Comparison × Option Error). v.0.differences) (sym verdict) ∙ no_difference,
      (compare-err_iff sha256 json baseline.response r rules).0
          (ap (λ (v : Comparison × Option Error). v.1) (sym verdict) ∙ no_error),
    )
