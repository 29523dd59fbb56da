-- ===== src/Diff/Domain/Counts.antt =====
-- Outcomes, and what `Report.Summary` counts.
use graybox_core.Diff.Domain.{
  Difference, Comparison, equivalent, Outcome, outcome_equivalent, outcome_changed, outcome_failed,
  ExchangeResult, outcome, Tally, Report, count_outcome, count_all, summary,
}
use graybox_core.Prelude.{
  ℕ, ◌+◌, true, false, ◌≡◌, ◌↔◌, refl, List, [], ◌∷◌, none, arith, length, Option-cases, Bool-cases,
  inl, inr,
}

pub equivalent_iff : (c : Comparison) → (equivalent c ≡ true) ↔ (c.differences ≡ [])
unfolding equivalent
equivalent_iff c = split c.differences
  where
    split : (ds : List Difference) → ((elim ds [ [] ↦ true | ◌∷◌ d r ↦ false ]) ≡ true) ↔ (ds ≡ [])
    split [] = (λ _. refl, λ _. refl)
    split (d ∷ ds) = (λ h. cc, λ h. cc)

-- The outcome is "equivalent" exactly when there is neither an error nor a difference.
pub outcome-equivalent_iff :
    (r : ExchangeResult)
    → (outcome r ≡ outcome_equivalent) ↔ ((r.err ≡ none) × (r.comparison.differences ≡ []))
unfolding outcome
outcome-equivalent_iff r = elim (Option-cases r.err) [
  | inl n ↦
      let none_differs = equivalent_iff r.comparison in
      elim (Bool-cases (equivalent r.comparison)) [
        | inl e ↦ rw (n, outcome) (rw e (λ _. (refl, none_differs.0 e), λ _. refl))
        | inr e ↦ rw (n, outcome) (rw e (λ h. cc, λ h. cc (none_differs.1 h.1)))
      ]
  | inr (f, n) ↦ rw (n, outcome) (λ h. cc, λ h. cc)
]

-- How many of the results have an outcome.
abbrev pub hits : Outcome → Outcome → ℕ
hits outcome_equivalent outcome_equivalent = 1
hits outcome_changed outcome_changed = 1
hits outcome_failed outcome_failed = 1
hits _ _ = 0

abbrev pub tally : Outcome → List ExchangeResult → ℕ
tally o [] = 0
tally o (r ∷ rs) = hits o (outcome r) + tally o rs

record Counted (rs : List ExchangeResult) (t u : Tally) : Type 0 where
  total : u.total ≡ t.total
  equivalents : u.equivalents ≡ t.equivalents + tally outcome_equivalent rs
  changed : u.changed ≡ t.changed + tally outcome_changed rs
  failed : u.failed ≡ t.failed + tally outcome_failed rs

counted-step :
    (o : Outcome) (t : Tally)
    → ((count_outcome o t).total ≡ t.total)
      × ((count_outcome o t).equivalents ≡ t.equivalents + hits outcome_equivalent o)
      × ((count_outcome o t).changed ≡ t.changed + hits outcome_changed o)
      × ((count_outcome o t).failed ≡ t.failed + hits outcome_failed o)
unfolding count_outcome
counted-step outcome_equivalent t = omega arith
counted-step outcome_changed t = omega arith
counted-step outcome_failed t = omega arith

count_all-Counted : (rs : List ExchangeResult) (t : Tally) → Counted rs t (count_all rs t)
unfolding count_all
count_all-Counted [] t = omega arith
count_all-Counted (r ∷ rs) t =
    let step = counted-step (outcome r) t in
    let rest = count_all-Counted rs (count_outcome (outcome r) t) in omega arith

-- Each result has one outcome.
tally_sum :
    (rs : List ExchangeResult)
    → tally outcome_equivalent rs + tally outcome_changed rs + tally outcome_failed rs ≡ length rs
tally_sum [] = omega arith
tally_sum (r ∷ rs) = omega (arith, tally_sum rs, hits_sum (outcome r))
  where
    hits_sum :
        (o : Outcome)
        → hits outcome_equivalent o + hits outcome_changed o + hits outcome_failed o ≡ 1
    hits_sum outcome_equivalent = omega arith
    hits_sum outcome_changed = omega arith
    hits_sum outcome_failed = omega arith

-- The total is the number of results, each result is counted under its own outcome, and the three
-- counts add up to the total.
pub summary-counts :
    (report : Report)
    → ((summary report).total ≡ length report.results)
      × ((summary report).equivalents ≡ tally outcome_equivalent report.results)
      × ((summary report).changed ≡ tally outcome_changed report.results)
      × ((summary report).failed ≡ tally outcome_failed report.results)
      × ((summary report).equivalents + (summary report).changed + (summary report).failed
          ≡ (summary report).total)
unfolding summary
summary-counts report =
    let start : Tally = record {
      total = length report.results;
      equivalents = 0;
      changed = 0;
      failed = 0;
    } in
    let counted = count_all-Counted report.results start in
    let sum = tally_sum report.results in omega arith
