-- ===== src/Diff/Body.antt =====
-- internal/diff/body.go: body comparison. `decodeJSON` goes through `Codec`; `sha256.Sum256` is the
-- parameter `sha256`.
pub mod Values
use graybox_core.Diff.Body.Values.{compare_json_values}
use graybox_core.Diff.Domain.{
  BodySnapshot, Difference, body_changed, Value, value_of, snapshot_data,
}
use graybox_core.Diff.Location.{Rules, ignores, body_location}
use graybox_core.Failure.{
  BodySide, baseline_side, current_side, BodyUnavailable, Error, body_unavailable,
}
use graybox_core.Json.Codec.{Codec}
use graybox_core.Json.{Json}
use graybox_core.Prelude.{
  ℕ, Bool, true, false, not, ◌&&◌, List, [], ◌∷◌, Option, none, some, if◌then◌else◌, length,
}
use graybox_core.Recording.{Response}
use graybox_core.Sanitize.Redact.{redacted_value}
use graybox_core.Text.{Str, codes, equal}

-- `ensureComparableBody`
unfoldable pub ensure_comparable_body : BodySide → Response → Option Error
unfolding equal
ensure_comparable_body side r =
    if not r.truncated && r.complete
    then none
    else some (
        body_unavailable (record {
          side = side;
          captured_size = length r.body;
          observed_size = r.observed_size;
          truncated = r.truncated;
          complete = r.complete;
          withheld = not r.complete && equal r.body redacted_value;
        }))

-- `decodeJSON`
unfoldable pub decode_json : Codec → Str → Option Json
decode_json json s = if json.valid s then json.decode s else none

module _ (sha256 : Str → Str) where
  unfoldable pub body_snapshot : Str → BodySnapshot
  body_snapshot s = record { size = length s; sha256 = sha256 s }

  unfoldable pub exact_difference : Str → Str → Difference
  unfolding body_snapshot body_location
  exact_difference baseline current = record {
    kind = body_changed;
    location = body_location [];
    before = value_of (snapshot_data (body_snapshot baseline));
    after = value_of (snapshot_data (body_snapshot current));
  }

  module _ (json : Codec) (rules : Rules) where
    -- The part of `compareBody` behind the availability checks.
    unfoldable pub compare_contents : Str → Str → List Difference
    compare_contents baseline current =
        if equal baseline current then [] else elim (decode_json json baseline) [
          | none ↦ exact_difference baseline current ∷ []
          | some b ↦ elim (decode_json json current) [
            | none ↦ exact_difference baseline current ∷ []
            | some c ↦ compare_json_values json rules [] b c
          ]
        ]

    -- `compareBody`
    unfoldable pub compare_body : Response → Response → List Difference × Option Error
    compare_body baseline current =
        if ignores rules (body_location [])
        then ([], none)
        else elim (ensure_comparable_body baseline_side baseline) [
          | some e ↦ ([], some e)
          | none ↦ elim (ensure_comparable_body current_side current) [
            | some e ↦ ([], some e)
            | none ↦ (compare_contents baseline.body current.body, none)
          ]
        ]
