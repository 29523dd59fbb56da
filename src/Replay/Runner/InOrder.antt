-- ===== src/Replay/Runner/InOrder.antt =====
-- The runner is a replayer: it calls the visitor once for each exchange, in the recording's order.
use graybox_core.Failure.{Error, ok, err, Result-cases}
use graybox_core.Platform.{Platform}
use graybox_core.Prelude.{
  ℕ, true, ◌≡◌, refl, List, [], ◌∷◌, Option, none, some, inl, inr, ap, sym, ◌∙◌,
}
use graybox_core.Recording.{Exchange, Summary}
use graybox_core.Replay.Execution.{Execution, Visit, visit_all, Replayer}
use graybox_core.Replay.Runner.{
  Runner, every, unless_err, attempt, run_exchange, run_id, run_summaries, run_each,
}
use mathlib.Core.Path.{fun_ext}
use graybox_core.Url.{Url}

module _ (go : Platform) (r : Runner) (target : Option Url) where
  -- What the visitor is called with for the recorded exchanges of a list, up to the first that cannot
  -- be read.
  unfoldable pub visits_of : List Summary → List (Exchange × Execution)
  visits_of [] = []
  visits_of (summary ∷ summaries) = elim (r.source.get summary.id) [
    | err e ↦ []
    | ok exchange ↦ attempt go r true target exchange ∷ visits_of summaries
  ]

  -- The error of reading it.
  unfoldable pub ending_of : List Summary → Option Error
  ending_of [] = none
  ending_of (summary ∷ summaries) = elim (r.source.get summary.id) [
    | err e ↦ some e
    | ok exchange ↦ ending_of summaries
  ]

  -- The same for the arguments of `RunEach`.
  unfoldable pub runner_visits : Option ℕ → List (Exchange × Execution)
  runner_visits (some id) = elim (r.source.get id) [
    | err e ↦ []
    | ok exchange ↦ attempt go r true target exchange ∷ []
  ]
  runner_visits none = elim (r.source.list every) [
    | err e ↦ []
    | ok summaries ↦ visits_of summaries
  ]

  unfoldable pub runner_ending : Option ℕ → Option Error
  runner_ending (some id) = elim (r.source.get id) [ err e ↦ some e | ok exchange ↦ none ]
  runner_ending none = elim (r.source.list every) [
    | err e ↦ some e
    | ok summaries ↦ ending_of summaries
  ]

  module _ (S : Type 0) (visit : Visit S) where
    split_err :
        (p : S × Option Error) (later : S → S × Option Error)
        → (elim p.1 [ some e ↦ (p.0, some e) | none ↦ later p.0 ]) ≡ unless_err p later
    split_err (s, none) later = refl
    split_err (s, some e) later = refl

    visit_one :
        (exchange : Exchange) (execution : Execution) (rest : List (Exchange × Execution))
        (ending : Option Error) (s : S)
        → visit_all S visit ((exchange, execution) ∷ rest) ending s
          ≡ unless_err (visit s exchange execution) (visit_all S visit rest ending)
    unfolding visit_all
    visit_one exchange execution rest ending s =
        split_err (visit s exchange execution) (visit_all S visit rest ending)

    first :
        (exchange : Exchange) (rest : List (Exchange × Execution)) (ending : Option Error) (s : S)
        → visit_all S visit (attempt go r true target exchange ∷ rest) ending s
          ≡ unless_err
              (run_exchange go r true S visit target s exchange)
              (visit_all S visit rest ending)
    unfolding attempt run_exchange
    first exchange rest ending s = visit_one _ _ rest ending s

    run_summaries-visit_all :
        (summaries : List Summary) (s : S)
        → run_summaries go r true S visit target summaries s
          ≡ visit_all S visit (visits_of summaries) (ending_of summaries) s
    unfolding visit_all run_summaries visits_of ending_of
    run_summaries-visit_all [] s = refl
    run_summaries-visit_all (summary ∷ summaries) s =
        elim (Result-cases (r.source.get summary.id)) [
          | inl (exchange, e) ↦
              rw (run_id, visits_of, ending_of, e)
                (ap (unless_err (run_exchange go r true S visit target s exchange))
                    (fun_ext λ s'. run_summaries-visit_all summaries s')
                  ∙ sym (first exchange (visits_of summaries) (ending_of summaries) s))
          | inr (x, e) ↦ rw (run_id, visits_of, ending_of, e) refl
        ]

    run_id-visit_all :
        (id : ℕ) (s : S)
        → run_id go r true S visit target s id
          ≡ visit_all S visit (runner_visits (some id)) (runner_ending (some id)) s
    unfolding visit_all run_id runner_visits runner_ending
    run_id-visit_all id s = elim (Result-cases (r.source.get id)) [
      | inl (exchange, e) ↦
          rw (run_id, runner_visits, runner_ending, e)
            (sym (ended (run_exchange go r true S visit target s exchange))
              ∙ sym (first exchange [] none s))
      | inr (x, e) ↦ rw (run_id, runner_visits, runner_ending, e) refl
    ]
      where
        ended : (p : S × Option Error) → unless_err p (λ s'. (s', none)) ≡ p
        ended (s, none) = refl
        ended (s, some e) = refl

    -- `RunEach` calls the visitor for the selected exchange, or for every recorded one in the order of
    -- the list, each with its normalized baseline and its execution. An error of the visitor stops it,
    -- and so does an exchange that cannot be read, whose error it returns.
    pub run_each-visit_all :
        (id : Option ℕ) (s : S)
        → run_each go r true S visit target id s
          ≡ visit_all S visit (runner_visits id) (runner_ending id) s
    unfolding run_each visit_all runner_visits runner_ending
    run_each-visit_all (some id) s = run_id-visit_all id s
    run_each-visit_all none s = elim (Result-cases (r.source.list every)) [
      | inl (summaries, e) ↦
          rw (run_each, runner_visits, runner_ending, e) (run_summaries-visit_all summaries s)
      | inr (x, e) ↦ rw (run_each, runner_visits, runner_ending, e) refl
    ]

-- The runner with `RunEach`, as the replayer that a diff run takes.
abbrev pub runner_replayer : Platform → Runner → Replayer
runner_replayer go r = record {
  run_each = λ S target id visit s. run_each go r true S visit (some target) id s;
  visits = λ target id. runner_visits go r (some target) id;
  ending = λ target id. runner_ending go r (some target) id;
  in_order = λ S target id visit s. run_each-visit_all go r (some target) S visit id s;
}
