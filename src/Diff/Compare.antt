-- ===== src/Diff/Compare.antt =====
-- internal/diff/compare.go: `Compare` and `compareStatus`.
pub mod Verdict
use graybox_core.Diff.Body.{compare_body}
use graybox_core.Diff.Domain.{status_changed, Difference, Value, value_of, status_data, Comparison}
use graybox_core.Diff.Headers.{compare_headers}
use graybox_core.Diff.Location.{Rules, ignores, status_location}
use graybox_core.Failure.{Error}
use graybox_core.Json.Codec.{Codec}
use graybox_core.Prelude.{
  ℕ, Bool, true, false, List, [], ◌∷◌, ◌++◌, Option, none, some, ◌==◌, if◌then◌else◌,
}
use graybox_core.Recording.{Response}
use graybox_core.Text.{Str}

-- `compareStatus`; `none` is `changed == false`.
unfoldable pub compare_status : ℕ → ℕ → Rules → Option Difference
unfolding ignores status_location
compare_status baseline current rules =
    if ignores rules status_location
    then none
    else if baseline == current
    then none
    else some (record {
      kind = status_changed;
      location = status_location;
      before = value_of (status_data baseline);
      after = value_of (status_data current);
    })

abbrev pub option_list {ℓ} : {A : Type ℓ} → Option A → List A
option_list none = []
option_list (some a) = a ∷ []

-- `Compare`
unfoldable pub compare :
    (Str → Str) → Codec → Response → Response → Rules → Comparison × Option Error
compare sha256 json baseline current rules =
    let (body_differences, err) = compare_body sha256 json rules baseline current in
    (
      record {
        differences =
            option_list (compare_status baseline.status_code current.status_code rules)
            ++ (compare_headers baseline.headers current.headers rules ++ body_differences);
      },
      err,
    )
