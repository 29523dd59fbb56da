-- ===== src/Diff/Runner/Recorded.antt =====
-- A diff run over a whole recording: what it reports is the comparison of every recorded exchange
-- with its replay.
use graybox_core.Diff.Location.{Rules}
use graybox_core.Diff.Runner.Results.{result_of, run_lem}
use graybox_core.Diff.Runner.{run}
use graybox_core.Failure.{ok}
use graybox_core.Json.Codec.{Codec}
use graybox_core.Platform.{Platform}
use graybox_core.Prelude.{ℕ, true, ◌≡◌, refl, ap, ◌∙◌, List, [], ◌∷◌, none, some, map, All}
use graybox_core.Recording.{Exchange, Summary}
use graybox_core.Replay.Runner.InOrder.{
  visits_of, ending_of, runner_visits, runner_ending, runner_replayer,
}
use graybox_core.Replay.Runner.{Runner, every, attempt}
use graybox_core.Text.{Str}
use mathlib.Core.List.{map-map}
use graybox_core.Url.{Url}

module _ (go : Platform) (r : Runner) (target : Url) where
  runner_visits_all :
      (summaries : List Summary)
      → r.source.list every ≡ ok summaries
      → runner_visits go r (some target) none ≡ visits_of go r (some target) summaries
  unfolding runner_visits
  runner_visits_all summaries l = rw (runner_visits, l) refl

  runner_ending_all :
      (summaries : List Summary)
      → r.source.list every ≡ ok summaries
      → runner_ending go r (some target) none ≡ ending_of go r (some target) summaries
  unfolding runner_ending
  runner_ending_all summaries l = rw (runner_ending, l) refl

module _ (go : Platform) (r : Runner) (target : Url) (exchange_of : ℕ → Exchange) where
  -- Every exchange of the list can be read.
  abbrev pub Readable : List Summary → Type 0
  Readable = All (λ s. r.source.get s.id ≡ ok (exchange_of s.id))

  visits_of-Readable :
      (summaries : List Summary)
      → Readable summaries
      → visits_of go r (some target) summaries
        ≡ map (λ s. attempt go r true (some target) (exchange_of s.id)) summaries
  unfolding visits_of
  visits_of-Readable [] h = refl
  visits_of-Readable (s ∷ summaries) h = rw (visits_of, h.0, visits_of-Readable summaries h.1) refl

  ending_of-Readable :
      (summaries : List Summary)
      → Readable summaries
      → ending_of go r (some target) summaries ≡ none
  unfolding ending_of
  ending_of-Readable [] h = refl
  ending_of-Readable (s ∷ summaries) h = rw (ending_of, h.0) (ending_of-Readable summaries h.1)

-- Where the recording can be read, a diff run over all of it ends without an error, and reports for
-- each exchange, in the recording's order, the comparison of its normalized baseline with its replay.
pub run-Readable :
    (sha256 : Str → Str) (json : Codec) (rules : Rules) (go : Platform) (r : Runner) (target : Url)
    (exchange_of : ℕ → Exchange) (summaries : List Summary)
    → r.source.list every ≡ ok summaries
    → Readable go r target exchange_of summaries
    → run sha256 json rules (runner_replayer go r) target none ≡ (
      record {
        results =
            map
              (λ s.
                result_of sha256 json rules (attempt go r true (some target) (exchange_of s.id)))
              summaries;
      },
      none,
    )
run-Readable sha256 json rules go r target exchange_of summaries l h =
    (run_lem sha256 json rules (runner_replayer go r) target none).0 (
      runner_ending_all go r target summaries l
      ∙ ending_of-Readable go r target exchange_of summaries h)
    ∙ ap (λ visits. (record { results = map (result_of sha256 json rules) visits }, none))
        (runner_visits_all go r target summaries l
          ∙ visits_of-Readable go r target exchange_of summaries h)
    ∙ ap (λ results. (record { results = results }, none))
        (map-map (result_of sha256 json rules)
          (λ s. attempt go r true (some target) (exchange_of s.id)) summaries)
