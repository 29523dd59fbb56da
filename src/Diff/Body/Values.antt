-- ===== src/Diff/Body/Values.antt =====
-- internal/diff/body.go: the recursive comparison of JSON values, `compareJSONValues`,
-- `compareJSONObjects` and `compareJSONArrays`. Go recurs on the value that the map yields for a
-- key; here `compare_field` walks the fields of the baseline to that value.
pub mod Same
pub mod Entries
pub mod Verdict
pub mod Reported
use graybox_core.Dict.{add_keys}
use graybox_core.Diff.Domain.{
  DifferenceKind, field_added, field_removed, type_changed, value_changed, element_added,
  element_removed, Difference, Value, missing_value, value_of, json_data,
}
use graybox_core.Diff.Location.{Rules, ignores, body_location, append_json_pointer}
use graybox_core.Diff.Number.{json_numbers_equal}
use graybox_core.Json.Codec.{Codec}
use graybox_core.Json.{
  Json, null, boolean, number, string, array, object, Items, nil, cons, Fields, end, field,
  get_field, field_keys,
}
use graybox_core.Prelude.{
  ℕ, zero, suc, Bool, true, false, not, List, [], ◌∷◌, ◌++◌, Option, none, some, if◌then◌else◌,
  concat_map,
}
use graybox_core.Sort.{sort_strings}
use graybox_core.Text.{Str, equal, itoa}

-- `jsonDifference`
unfoldable pub json_difference : DifferenceKind → Str → Value → Value → List Difference
unfolding body_location
json_difference kind pointer before after =
    record { kind = kind; location = body_location pointer; before = before; after = after } ∷ []

-- `jsonObjectKeys`
unfoldable pub json_object_keys : Fields → Fields → List Str
unfolding add_keys sort_strings
json_object_keys baseline current =
    sort_strings (add_keys (field_keys current) (add_keys (field_keys baseline) []))

abbrev pub changed : DifferenceKind → Str → Json → Json → List Difference
changed kind pointer baseline current =
    json_difference kind pointer (value_of (json_data baseline)) (value_of (json_data current))

abbrev pub added : DifferenceKind → Str → Json → List Difference
added kind pointer current =
    json_difference kind pointer missing_value (value_of (json_data current))

abbrev pub removed : DifferenceKind → Str → Json → List Difference
removed kind pointer baseline =
    json_difference kind pointer (value_of (json_data baseline)) missing_value

abbrev pub element_pointer : Str → ℕ → Str
element_pointer pointer index = append_json_pointer pointer (itoa index)

abbrev pub same_bool : Bool → Bool → Bool
same_bool a b = if a then b else not b

module _ (json : Codec) (rules : Rules) where
  -- Nothing is reported at a location that is ignored.
  abbrev pub unless_ignored : Str → List Difference → List Difference
  unless_ignored pointer ds = if ignores rules (body_location pointer) then [] else ds

  -- The loop over the elements that only the baseline has.
  unfoldable pub removed_elements : Str → ℕ → Items → List Difference
  unfolding json_difference
  removed_elements pointer index nil = []
  removed_elements pointer index (cons v vs) =
      unless_ignored (element_pointer pointer index)
        (removed element_removed (element_pointer pointer index) v)
      ++ removed_elements pointer (suc index) vs

  -- The loop over the elements that only the current value has.
  unfoldable pub added_elements : Str → ℕ → Items → List Difference
  unfolding json_difference
  added_elements pointer index nil = []
  added_elements pointer index (cons w ws) =
      unless_ignored (element_pointer pointer index)
        (added element_added (element_pointer pointer index) w)
      ++ added_elements pointer (suc index) ws

  unfoldable mutual
    -- `compareJSONValues`
    pub compare_json_values : Str → Json → Json → List Difference
    compare_json_values pointer null null = unless_ignored pointer []
    compare_json_values pointer (boolean a) (boolean b) =
        unless_ignored pointer
          (if same_bool a b then [] else changed value_changed pointer (boolean a) (boolean b))
    compare_json_values pointer (number a) (number b) = unless_ignored pointer (
        if json_numbers_equal json a b
        then []
        else changed value_changed pointer (number a) (number b))
    compare_json_values pointer (string a) (string b) =
        unless_ignored pointer
          (if equal a b then [] else changed value_changed pointer (string a) (string b))
    compare_json_values pointer (array vs) (array ws) =
        unless_ignored pointer (compare_elements pointer 0 vs ws)
    compare_json_values pointer (object fs) (object gs) = unless_ignored pointer (
        concat_map
          (λ key.
            unless_ignored (append_json_pointer pointer key)
              (compare_field (append_json_pointer pointer key) key fs gs))
          (json_object_keys fs gs))
    compare_json_values pointer v w = unless_ignored pointer (changed type_changed pointer v w)

    -- `compareJSONArrays`, from `index` on.
    pub compare_elements : Str → ℕ → Items → Items → List Difference
    compare_elements pointer index nil ws = added_elements pointer index ws
    compare_elements pointer index (cons v vs) nil = removed_elements pointer index (cons v vs)
    compare_elements pointer index (cons v vs) (cons w ws) =
        compare_json_values (element_pointer pointer index) v w
        ++ compare_elements pointer (suc index) vs ws

    -- The `switch` of `compareJSONObjects` for a key at its pointer.
    pub compare_field : Str → Str → Fields → Fields → List Difference
    compare_field pointer key end gs = elim (get_field key gs) [
      | none ↦ []
      | some w ↦ added field_added pointer w
    ]
    compare_field pointer key (field k v fs) gs =
        let here : List Difference = elim (get_field key gs) [
          | none ↦ removed field_removed pointer v
          | some w ↦ compare_json_values pointer v w
        ] in
        let later = compare_field pointer key fs gs in if equal k key then here else later
