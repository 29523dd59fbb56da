-- ===== src/Sanitize/Fields.antt =====
-- internal/sanitize/fields.go: replacing JSON fields and form or query values, and selecting those
-- that exist.
pub mod Replace
pub mod Unique
use graybox_core.Dict.{Dict, contains, keys, lookup, put}
use graybox_core.Failure.{Error, failure, Result, ok, err, ◌>>=◌}
use graybox_core.Json.{
  Json, null, boolean, number, string, array, object, Items, nil, cons, Fields, end, field,
  field_keys,
}
use graybox_core.Platform.{Platform, Values}
use graybox_core.Prelude.{
  ℕ, zero, suc, ◌+◌, ◌-◌, ◌*◌, Bool, true, false, not, ◌&&◌, ◌||◌, List, [], ◌∷◌, ◌++◌, Option,
  none, some, ◌==◌, if◌then◌else◌, map,
}
use graybox_core.Sanitize.Pointer.{pointer}
use graybox_core.Sanitize.Redact.{redacted_value, is_redacted, redact_all}
use graybox_core.Sort.{sort_strings}
use graybox_core.Text.{Str, codes, equal, trim_space, is_digit, itoa}

-- `sortedKeys`
unfoldable pub sorted_keys : Dict Str → List Str
sorted_keys values = sort_strings (keys values)

-- `values[key]`, the empty string for an absent key.
unfoldable pub value_at : Str → Dict Str → Str
value_at key values = elim (lookup key values) [ none ↦ [] | some v ↦ v ]

-- `strconv.Atoi` of a token that `strconv.Itoa` gives back.
read_index : ℕ → Str → Option ℕ
read_index acc [] = some acc
read_index acc (c ∷ s) =
    let rest = read_index (acc * 10 + (c - b'0')) s in if is_digit c then rest else none

unfoldable pub array_index : Str → Option ℕ
unfolding read_index
array_index token = elim (read_index 0 token) [
  | none ↦ none
  | some n ↦ if equal (itoa n) token then some n else none
]

unfoldable pub get_elem? : List Str → ℕ → Option Str
get_elem? [] i = none
get_elem? (x ∷ xs) zero = some x
get_elem? (x ∷ xs) (suc i) = get_elem? xs i

unfoldable pub set : List Str → ℕ → Str → List Str
set [] i v = []
set (x ∷ xs) zero v = v ∷ xs
set (x ∷ xs) (suc i) v = x ∷ set xs i v

-- The first byte of `bytes.TrimSpace(raw)`.
unfoldable pub opens_with : ℕ → Str → Bool
opens_with b raw = elim (trim_space raw) [ [] ↦ false | ◌∷◌ c s ↦ c == b ]

mutual
  all_unique : Json → Bool
  all_unique (object fs) = unique_fields [] fs
  all_unique (array vs) = unique_items vs
  all_unique null = true
  all_unique (boolean b) = true
  all_unique (number n) = true
  all_unique (string s) = true

  unique_items : Items → Bool
  unique_items nil = true
  unique_items (cons v vs) = all_unique v && unique_items vs

  unique_fields : List Str → Fields → Bool
  unique_fields seen end = true
  unique_fields seen (field k v fs) =
      not (contains seen k) && (all_unique v && unique_fields (k ∷ seen) fs)

-- `uniqueJSONValue`
unfoldable pub unique_json_value : Json → Bool
unfolding all_unique
unique_json_value v = all_unique v

-- How a step with the value found in a member or element goes on.
unfoldable pub put_back : Option Str → Str → (Str → Result Str) → Str × Bool → Result (Str × Bool)
put_back value raw rebuild (updated, false) = ok (raw, false)
put_back none raw rebuild (updated, true) = ok (raw, true)
put_back (some v) raw rebuild (updated, true) = do encoded ← rebuild updated; ok (encoded, true)

module _ (go : Platform) where
  -- `validJSON`
  unfoldable pub valid_json : Str → Bool
  valid_json s =
      if go.utf8_valid s && go.json.valid s
      then elim (go.json_tree s) [ none ↦ false | some v ↦ unique_json_value v ]
      else false

  -- The end of `replaceJSON`, where `raw` is neither object nor array.
  unfoldable pub replace_scalar : Str → Option Str → Result (Str × Bool)
  replace_scalar raw (some v) = ok (raw, false)
  replace_scalar raw none = elim (go.unmarshal_string raw) [
    | none ↦ ok (raw, false)
    | some s ↦
        if is_redacted s
        then err
            (failure (codes "cannot determine replacement fields inside a redacted JSON ancestor"))
        else ok (raw, false)
  ]

  -- `replaceJSON`; the value `none` is nil.
  unfoldable pub replace_json : Str → List Str → Option Str → Result (Str × Bool)
  replace_json raw [] value = ok (elim value [ none ↦ raw | some v ↦ v ], true)
  replace_json raw (part ∷ parts) value =
      if opens_with b'{' raw
      then elim (go.unmarshal_object raw) [
        | none ↦ err (failure (codes "invalid JSON object"))
        | some members ↦ elim (lookup part members) [
          | none ↦ ok (raw, false)
          | some child ↦
              replace_json child parts value
              >>= put_back value raw (λ updated. go.marshal_object (put part updated members))
        ]
      ]
      else if opens_with b'[' raw
      then elim (go.unmarshal_array raw) [
        | none ↦ err (failure (codes "invalid JSON array"))
        | some elements ↦ elim (array_index part) [
          | none ↦ ok (raw, false)
          | some i ↦ elim (get_elem? elements i) [
            | none ↦ ok (raw, false)
            | some child ↦
                replace_json child parts value
                >>= put_back value raw (λ updated. go.marshal_array (set elements i updated))
          ]
        ]
      ]
      else replace_scalar raw value

  -- The loop of `ReplaceJSON`.
  unfoldable pub replace_paths : Dict Str → Bool → List Str → Str → Result Str
  replace_paths values required [] result = ok result
  replace_paths values required (path ∷ paths) result = do
    parts ← pointer path
    (updated, found) ← replace_json result parts (some (go.marshal_string (value_at path values)))
    if not found && required
        then err (failure (codes "JSON replacement target is missing: " ++ path))
        else replace_paths values required paths updated

  -- `ReplaceJSON`
  unfoldable pub replace_json_body : Str → Dict Str → Bool → Result Str
  replace_json_body content values required =
      if valid_json content
      then replace_paths values required (sorted_keys values) content
      else err
          (failure (codes "body is not unambiguous UTF-8 JSON (check syntax and duplicate keys)"))

  -- The loop of `ExistingJSON`, which collects the paths found.
  unfoldable pub existing_paths : Str → Dict Str → List Str → Dict Str → Result (Dict Str)
  existing_paths content values [] matched = ok matched
  existing_paths content values (path ∷ paths) matched = do
    parts ← pointer path
    (_, found) ← replace_json content parts none
    existing_paths content values paths
        (if found then put path (value_at path values) matched else matched)

  -- `ExistingJSON`
  unfoldable pub existing_json : Str → Dict Str → Result (Dict Str)
  existing_json content values =
      if valid_json content
      then existing_paths content values (sorted_keys values) []
      else err
          (failure (codes "body is not unambiguous UTF-8 JSON (check syntax and duplicate keys)"))
