-- ===== src/Diff/Headers.antt =====
-- internal/diff/compare.go: the comparison of headers.
pub mod Normal
pub mod Report
use graybox_core.Dict.{Dict, add_keys, keys, lookup, put}
use graybox_core.Diff.Domain.{
  DifferenceKind, header_added, header_removed, header_changed, Difference, Value, missing_value,
  value_of, header_data,
}
use graybox_core.Diff.Location.{Location, Rules, ignores, header_location}
use graybox_core.Prelude.{
  Bool, true, false, ◌&&◌, List, [], ◌∷◌, ◌++◌, Option, none, some, if◌then◌else◌, concat_map,
}
use graybox_core.Recording.{Headers}
use graybox_core.Sort.{sort_by, sort_strings}
use graybox_core.Text.{Str, equal, less}

-- `slices.Equal` on strings.
unfoldable pub equal_values : List Str → List Str → Bool
unfolding equal
equal_values [] [] = true
equal_values (x ∷ xs) (y ∷ ys) = equal x y && equal_values xs ys
equal_values _ _ = false

-- The values of a key, none for an absent one: `headers[name]`.
unfoldable pub values_of : Str → Headers → List Str
unfolding lookup
values_of name headers = elim (lookup name headers) [ none ↦ [] | some vs ↦ vs ]

-- The comparison function that `normalizeHeaders` hands to `sort.Slice`.
unfoldable pub name_less : Str → Str → Bool
unfolding equal less header_location
name_less a b =
    if equal (header_location a).path (header_location b).path
    then less a b
    else less (header_location a).path (header_location b).path

merge_names : Headers → List Str → Headers → Headers
unfolding values_of put header_location
merge_names headers [] normalized = normalized
merge_names headers (original ∷ names) normalized =
    let name = (header_location original).path in
    merge_names headers names
      (put name (values_of name normalized ++ values_of original headers) normalized)

-- `normalizeHeaders`
unfoldable pub normalize_headers : Headers → Headers
unfolding merge_names sort_by name_less
normalize_headers headers = merge_names headers (sort_by name_less (keys headers)) []

-- `headerNames`
unfoldable pub header_names : Headers → Headers → List Str
unfolding add_keys sort_strings
header_names baseline current = sort_strings (add_keys (keys current) (add_keys (keys baseline) []))

-- `headerValue`; a copy is the value itself here.
abbrev pub header_value : List Str → Value
header_value vs = value_of (header_data vs)

-- The `switch` of the loop.
unfoldable pub header_switch : Location → Option (List Str) → Option (List Str) → List Difference
unfolding equal_values
header_switch l none none = []
header_switch l none (some ws) =
    record { kind = header_added; location = l; before = missing_value; after = header_value ws }
    ∷ []
header_switch l (some vs) none =
    record { kind = header_removed; location = l; before = header_value vs; after = missing_value }
    ∷ []
header_switch l (some vs) (some ws) =
    if equal_values vs ws
    then []
    else record {
      kind = header_changed;
      location = l;
      before = header_value vs;
      after = header_value ws;
    }
      ∷ []

-- The loop of `compareHeaders`, over normalized headers.
unfoldable pub compare_normalized : Rules → Headers → Headers → List Difference
unfolding header_names ignores header_switch header_location lookup
compare_normalized rules baseline current =
    concat_map
      (λ name.
        if ignores rules (header_location name)
        then []
        else header_switch (header_location name) (lookup name baseline) (lookup name current))
      (header_names baseline current)

-- `compareHeaders`
unfoldable pub compare_headers : Headers → Headers → Rules → List Difference
unfolding normalize_headers compare_normalized
compare_headers baseline current rules =
    compare_normalized rules (normalize_headers baseline) (normalize_headers current)
