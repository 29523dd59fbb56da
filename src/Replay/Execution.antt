-- ===== src/Replay/Execution.antt =====
-- internal/replay/replay.go: one replay attempt, and the callback interface through which the
-- attempts reach their consumer (`Replayer` of internal/diff/runner.go). A visitor's captured
-- variables are its explicit state.
use graybox_core.Failure.{Error}
use graybox_core.Prelude.{ℕ, ◌≡◌, List, [], ◌∷◌, Option, none, some}
use graybox_core.Recording.{Exchange, Response}
use graybox_core.Text.{Str}
use graybox_core.Url.{Url}

pub record Execution : Type 0 where
  pub exchange_id : ℕ
  pub method : Str
  pub path : Str
  pub target_url : Str
  pub status : Str
  pub duration : ℕ
  pub response : Option Response
  pub err : Option Error

-- `VisitFunc`
abbrev pub Visit : Type 0 → Type 0
Visit S = S → Exchange → Execution → S × Option Error

-- The visits made one by one: an error of the visitor stops them, and behind the last of them the
-- iteration itself ends, with `ending`.
unfoldable pub visit_all :
    (S : Type 0) → Visit S → List (Exchange × Execution) → Option Error → S → S × Option Error
visit_all S visit [] ending s = (s, ending)
visit_all S visit ((exchange, execution) ∷ rest) ending s =
    let (s', err) = visit s exchange execution in
    let later = visit_all S visit rest ending s' in
    elim err [ some e ↦ (s', some e) | none ↦ later ]

-- `Replayer`, with what its client relies on: the visitor is called once for each replayed
-- exchange, in order, and the state of the iteration is the visitor's alone.
pub record Replayer : Type 1 where
  pub run_each : (S : Type 0) → Url → Option ℕ → Visit S → S → S × Option Error
  pub visits : Url → Option ℕ → List (Exchange × Execution)
  pub ending : Url → Option ℕ → Option Error
  pub in_order :
      (S : Type 0) (target : Url) (id : Option ℕ) (visit : Visit S) (s : S)
      → run_each S target id visit s ≡ visit_all S visit (visits target id) (ending target id) s
