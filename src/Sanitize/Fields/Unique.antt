-- ===== src/Sanitize/Fields/Unique.antt =====
-- Which JSON `validJSON` accepts.
use graybox_core.Dict.Laws.{contains→In}
use graybox_core.Dict.{contains}
use graybox_core.Json.{
  Json, null, boolean, number, string, array, object, Items, nil, cons, Fields, end, field,
  field_keys,
}
use graybox_core.Platform.{Platform}
use graybox_core.Prelude.{
  Bool, true, false, not, ◌&&◌, ◌≡◌, inl, inr, refl, List, [], ◌∷◌, some, arith, Bool-cases,
}
use graybox_core.Sanitize.Fields.{
  all_unique, unique_items, unique_fields, unique_json_value, valid_json,
}
use graybox_core.Sort.Laws.{In, Distinct}
use graybox_core.Text.{Str}
use mathlib.Core.Path.{subst}

-- In no object, at any depth, a key stands twice.
mutual
  pub UniqueKeys : Json → Type 0
  UniqueKeys (object fs) = Distinct (field_keys fs) × UniqueValues fs
  UniqueKeys (array vs) = UniqueItems vs
  UniqueKeys null = Unit
  UniqueKeys (boolean b) = Unit
  UniqueKeys (number n) = Unit
  UniqueKeys (string s) = Unit

  pub UniqueItems : Items → Type 0
  UniqueItems nil = Unit
  UniqueItems (cons v vs) = UniqueKeys v × UniqueItems vs

  pub UniqueValues : Fields → Type 0
  UniqueValues end = Unit
  UniqueValues (field k v fs) = UniqueKeys v × UniqueValues fs

fresh : (k : Str) (seen : List Str) → ¬ In k seen → contains seen k ≡ false
fresh k seen n = elim (Bool-cases (contains seen k)) [
  | inl e ↦ absurd (n (contains→In seen k e))
  | inr e ↦ e
]

three : (a b c : Bool) → a ≡ false → b ≡ true → c ≡ true → (not a && (b && c)) ≡ true
three a b c p q r = ground arith

two : (a b : Bool) → a ≡ true → b ≡ true → (a && b) ≡ true
two a b p q = ground arith

mutual
  unfolding all_unique UniqueKeys

  UniqueKeys-all_unique : (v : Json) → UniqueKeys v → all_unique v ≡ true
  UniqueKeys-all_unique (object fs) h = unique_fields-true [] fs (λ k i j. j) h.0 h.1
  UniqueKeys-all_unique (array vs) h = unique_items-true vs h
  UniqueKeys-all_unique null h = refl
  UniqueKeys-all_unique (boolean b) h = refl
  UniqueKeys-all_unique (number n) h = refl
  UniqueKeys-all_unique (string s) h = refl

  unique_items-true : (vs : Items) → UniqueItems vs → unique_items vs ≡ true
  unique_items-true nil h = refl
  unique_items-true (cons v vs) h =
      two (all_unique v) (unique_items vs) (UniqueKeys-all_unique v h.0) (unique_items-true vs h.1)

  unique_fields-true :
      (seen : List Str) (fs : Fields)
      → ((k : Str) → In k (field_keys fs) → ¬ In k seen)
      → Distinct (field_keys fs)
      → UniqueValues fs
      → unique_fields seen fs ≡ true
  unique_fields-true seen end f d h = refl
  unique_fields-true seen (field k v fs) f d h =
      three (contains seen k) (all_unique v) (unique_fields (k ∷ seen) fs)
        (fresh k seen (f k (inl refl))) (UniqueKeys-all_unique v h.0)
        (unique_fields-true (k ∷ seen) fs
          (λ j i m. elim m [
            | inl e ↦ d.0 (subst (λ x. In x (field_keys fs)) e i)
            | inr n ↦ f j (inr i) n
          ])
          d.1 h.1)

-- Valid JSON in UTF-8 whose objects have no key twice is accepted.
pub valid_json-true :
    (go : Platform) (s : Str) (tree : Json)
    → go.utf8_valid s ≡ true
    → go.json.valid s ≡ true
    → go.json_tree s ≡ some tree
    → UniqueKeys tree
    → valid_json go s ≡ true
unfolding valid_json unique_json_value
valid_json-true go s tree u v t h = rw (valid_json, u, v, t) (UniqueKeys-all_unique tree h)
