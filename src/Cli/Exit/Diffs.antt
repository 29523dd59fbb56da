-- ===== src/Cli/Exit/Diffs.antt =====
-- What the exit code of a diff says of its report.
use graybox_core.Cli.Exit.{diff_exit_code}
use graybox_core.Diff.Domain.Counts.{outcome-equivalent_iff, hits, tally, summary-counts}
use graybox_core.Diff.Domain.{
  Outcome, outcome_equivalent, outcome_changed, outcome_failed, ExchangeResult, outcome, Report,
}
use graybox_core.Prelude.{◌+◌, ◌<◌, ◌≡◌, ◌↔◌, ◌⊎◌, List, [], ◌∷◌, none, arith, All}

-- Compared without an error and without a difference.
abbrev pub IsUnchanged : ExchangeResult → Type 0
IsUnchanged r = (r.err ≡ none) × (r.comparison.differences ≡ [])

-- Some result has the outcome.
abbrev pub Some : Outcome → List ExchangeResult → Type 0
Some o [] = ⊥
Some o (r ∷ rs) = (outcome r ≡ o) ⊎ Some o rs

hits_changed : (o : Outcome) → (0 < hits outcome_changed o) ↔ (o ≡ outcome_changed)
hits_changed o = ground arith

hits_failed : (o : Outcome) → (0 < hits outcome_failed o) ↔ (o ≡ outcome_failed)
hits_failed o = ground arith

hits_none :
    (o : Outcome) → (hits outcome_changed o + hits outcome_failed o ≡ 0) ↔ (o ≡ outcome_equivalent)
hits_none o = ground arith

changed_iff : (rs : List ExchangeResult) → (0 < tally outcome_changed rs) ↔ Some outcome_changed rs
changed_iff [] = ground arith
changed_iff (r ∷ rs) = ground (arith, hits_changed (outcome r), changed_iff rs)

failed_iff : (rs : List ExchangeResult) → (0 < tally outcome_failed rs) ↔ Some outcome_failed rs
failed_iff [] = ground arith
failed_iff (r ∷ rs) = ground (arith, hits_failed (outcome r), failed_iff rs)

IsUnchanged-iff :
    (rs : List ExchangeResult)
    → ((tally outcome_changed rs ≡ 0) × (tally outcome_failed rs ≡ 0)) ↔ All IsUnchanged rs
IsUnchanged-iff [] = ground arith
IsUnchanged-iff (r ∷ rs) =
    let same = hits_none (outcome r) in
    let clean = outcome-equivalent_iff r in
    let rest = IsUnchanged-iff rs in
    (
      λ h. (clean.0 (same.0 (omega arith)), rest.0 (omega arith)),
      λ h. let z = same.1 (clean.1 h.0) in let k = rest.1 h.1 in omega arith,
    )

-- A diff ends with 0 exactly if every result was compared without an error and without a difference,
-- with 3 exactly if some comparison failed, and with 1 exactly if none failed and some response
-- changed.
pub diff_exit_code_iff :
    (report : Report)
    → ((diff_exit_code report ≡ 0) ↔ All IsUnchanged report.results)
      × ((diff_exit_code report ≡ 3) ↔ Some outcome_failed report.results)
      × ((diff_exit_code report ≡ 1)
          ↔ ((¬ Some outcome_failed report.results) × Some outcome_changed report.results))
unfolding diff_exit_code
diff_exit_code_iff report = ground (
  arith,
  summary-counts report,
  IsUnchanged-iff report.results,
  failed_iff report.results,
  changed_iff report.results,
)
