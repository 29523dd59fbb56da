-- ===== src/Diff/Domain.antt =====
-- internal/diff/domain.go: differences, comparisons, outcomes and reports.
pub mod Counts
use graybox_core.Diff.Location.{Location}
use graybox_core.Failure.{Error}
use graybox_core.Json.{Json}
use graybox_core.Prelude.{
  ℕ, ◌+◌, Bool, true, false, List, [], ◌∷◌, Option, none, some, if◌then◌else◌, length,
}
use graybox_core.Text.{Str}

-- `DifferenceKind`
pub data DifferenceKind : Type 0 where
  status_changed header_added header_removed header_changed : DifferenceKind
  field_added field_removed type_changed value_changed body_changed : DifferenceKind
  element_added element_removed : DifferenceKind

-- `BodySnapshot`
pub record BodySnapshot : Type 0 where
  pub size : ℕ
  pub sha256 : Str

-- What the field `Data any` of a `Value` holds.
pub data Payload : Type 0 where
  status_data : ℕ → Payload
  header_data : List Str → Payload
  json_data : Json → Payload
  snapshot_data : BodySnapshot → Payload

-- `Value`: `missing_value` is the absent one, also where JSON null is present.
pub data Value : Type 0 where
  missing_value : Value
  value_of : Payload → Value

pub record Difference : Type 0 where
  pub kind : DifferenceKind
  pub location : Location
  pub before : Value
  pub after : Value

pub record Comparison : Type 0 where
  pub differences : List Difference

unfoldable pub equivalent : Comparison → Bool
equivalent c = elim c.differences [ [] ↦ true | ◌∷◌ d ds ↦ false ]

pub data Outcome : Type 0 where
  outcome_equivalent outcome_changed outcome_failed : Outcome

pub record ExchangeResult : Type 0 where
  pub exchange_id : ℕ
  pub method : Str
  pub path : Str
  pub baseline_duration : ℕ
  pub current_duration : ℕ
  pub comparison : Comparison
  pub err : Option Error

-- `ExchangeResult.Outcome`
unfoldable pub outcome : ExchangeResult → Outcome
unfolding equivalent
outcome r = elim r.err [
  | some e ↦ outcome_failed
  | none ↦ if equivalent r.comparison then outcome_equivalent else outcome_changed
]

-- `Summary`
pub record Tally : Type 0 where
  pub total : ℕ
  pub equivalents : ℕ
  pub changed : ℕ
  pub failed : ℕ

pub record Report : Type 0 where
  pub results : List ExchangeResult

-- One round of the loop of `Report.Summary`.
unfoldable pub count_outcome : Outcome → Tally → Tally
count_outcome outcome_equivalent t = record t { equivalents = t.equivalents + 1 }
count_outcome outcome_changed t = record t { changed = t.changed + 1 }
count_outcome outcome_failed t = record t { failed = t.failed + 1 }

count_all : List ExchangeResult → Tally → Tally
unfolding count_outcome outcome
count_all [] t = t
count_all (r ∷ rs) t = count_all rs (count_outcome (outcome r) t)

-- `Report.Summary`
unfoldable pub summary : Report → Tally
unfolding count_all
summary report =
    count_all report.results
      (record { total = length report.results; equivalents = 0; changed = 0; failed = 0 })
