-- ===== src/Diff/Body/Values/Verdict.antt =====
-- `compareJSONValues` reports nothing exactly for values that are the same.
use graybox_core.Diff.Body.Values.Entries.{
  get_field_end, get_field_field, get_field→In, In-json_object_keys, by_presence, compare_field_lem,
}
use graybox_core.Diff.Body.Values.Same.{
  SameJson, same_null, same_boolean, same_number, same_string, same_array, same_object, SameItems,
  same_nil, same_cons, SameEntry, both_absent, both_present,
}
use graybox_core.Diff.Body.Values.{
  json_difference, json_object_keys, compare_json_values, compare_elements, compare_field,
  removed_elements, added_elements, element_pointer, unless_ignored,
}
use graybox_core.Diff.Domain.{Difference}
use graybox_core.Diff.Location.{Rules, ignores, any_ignores, append_json_pointer}
use graybox_core.Json.Codec.{Codec}
use graybox_core.Json.{
  Json, null, boolean, number, string, array, object, Items, nil, cons, Fields, end, field,
  get_field,
}
use graybox_core.Prelude.{
  ℕ, suc, ◌≡◌, ◌↔◌, inl, inr, refl, ◌∙◌, ap₂, List, [], ◌∷◌, ◌++◌, Option, arith, Bool-cases,
  Option-cases, concat_map,
}
use graybox_core.Sort.Laws.{In}
use graybox_core.Text.Laws.{equal_iff}
use graybox_core.Text.{Str, equal}
use mathlib.Core.List.{cons-ne-nil}

module _ (json : Codec) (rules : Rules) where
  unless_ignored-nil :
      (p : Str) (ds : List Difference) → ds ≡ [] → unless_ignored json rules p ds ≡ []
  unless_ignored-nil p ds e = ground arith

  concat_map-nil :
      (f : Str → List Difference) (keys : List Str)
      → ((key : Str) → f key ≡ [])
      → concat_map f keys ≡ []
  concat_map-nil f [] h = refl
  concat_map-nil f (k ∷ keys) h = rw (h k) (concat_map-nil f keys h)

  mutual
    unfolding compare_json_values removed_elements added_elements

    same→nil :
        {v w : Json} (p : Str) → SameJson json v w → compare_json_values json rules p v w ≡ []
    same→nil p same_null = unless_ignored-nil p [] refl
    same→nil p (same_boolean e) = ground arith
    same→nil p (same_number e) = ground arith
    same→nil p (same_string {a} {b} e) = ground (arith, equal_iff a b)
    same→nil p (same_array s) = unless_ignored-nil p _ (same_items→nil p 0 s)
    same→nil p (same_object {fs} {gs} s) = unless_ignored-nil p _ (
        concat_map-nil _ (json_object_keys fs gs) (λ key.
          unless_ignored-nil (append_json_pointer p key) _ (
            compare_field_lem json rules (append_json_pointer p key) key fs gs
            ∙ same_entry→nil (append_json_pointer p key) (s key))))

    same_items→nil :
        {vs ws : Items} (p : Str) (i : ℕ)
        → SameItems json vs ws
        → compare_elements json rules p i vs ws ≡ []
    same_items→nil p i same_nil = refl
    same_items→nil p i (same_cons s t) =
        ap₂ ◌++◌ (same→nil (element_pointer p i) s) (same_items→nil p (suc i) t)

    same_entry→nil :
        {o q : Option Json} (p : Str) → SameEntry json o q → by_presence json rules p o q ≡ []
    same_entry→nil p both_absent = refl
    same_entry→nil p (both_present s) = same→nil p s

-- With no rule nothing is hidden.
module _ (json : Codec) (rules : Rules) (none_ignored : rules.ignore ≡ []) where
  visible : (p : Str) (ds : List Difference) → unless_ignored json rules p ds ≡ [] → ds ≡ []
  unfolding ignores any_ignores
  visible p ds e = rw (none_ignored, ignores, any_ignores) at e

  append-nil_left : (xs ys : List Difference) → xs ++ ys ≡ [] → xs ≡ []
  append-nil_left [] ys e = refl
  append-nil_left (x ∷ xs) ys e = absurd (cons-ne-nil x (xs ++ ys) e)

  append-nil_right : (xs ys : List Difference) → xs ++ ys ≡ [] → ys ≡ []
  append-nil_right [] ys e = e
  append-nil_right (x ∷ xs) ys e = absurd (cons-ne-nil x (xs ++ ys) e)

  each-nil :
      (f : Str → List Difference) (keys : List Str) (key : Str)
      → In key keys
      → concat_map f keys ≡ []
      → f key ≡ []
  each-nil f [] key h e = absurd h
  each-nil f (k ∷ keys) key (inl p) e = rw p (append-nil_left (f k) (concat_map f keys) e)
  each-nil f (k ∷ keys) key (inr p) e =
      each-nil f keys key p (append-nil_right (f k) (concat_map f keys) e)

  object-nil :
      (p : Str) (fs gs : Fields) (key : Str)
      → compare_json_values json rules p (object fs) (object gs) ≡ []
      → In key (json_object_keys fs gs)
      → compare_field json rules (append_json_pointer p key) key fs gs ≡ []
  unfolding compare_json_values
  object-nil p fs gs key e h =
      visible (append_json_pointer p key) _
        (each-nil _ (json_object_keys fs gs) key h (visible p _ e))

  entries-nil :
      (p : Str) (fs gs : Fields) (key : Str)
      → compare_json_values json rules p (object fs) (object gs) ≡ []
      → compare_field json rules (append_json_pointer p key) key fs gs ≡ []
  entries-nil p fs gs key e = elim (Option-cases (get_field key fs)) [
    | inl n ↦ elim (Option-cases (get_field key gs)) [
      | inl m ↦ compare_field_lem json rules (append_json_pointer p key) key fs gs ∙ rw (n, m)
      | inr (w, m) ↦
          object-nil p fs gs key e
            (In-json_object_keys key fs gs (inr (get_field→In key gs (rw m (λ k. cc)))))
    ]
    | inr (v, n) ↦
        object-nil p fs gs key e
          (In-json_object_keys key fs gs (inl (get_field→In key fs (rw n (λ k. cc)))))
  ]

  mutual
    unfolding compare_json_values removed_elements added_elements json_difference

    nil→same :
        (p : Str) (v w : Json) → compare_json_values json rules p v w ≡ [] → SameJson json v w
    nil→same p null null e = same_null
    nil→same p (boolean a) (boolean b) e = same_boolean (ground (arith, visible p _ e))
    nil→same p (number a) (number b) e = same_number (ground (arith, visible p _ e))
    nil→same p (string a) (string b) e = same_string (ground (arith, equal_iff a b, visible p _ e))
    nil→same p (array vs) (array ws) e = same_array (nil→same_items p 0 vs ws (visible p _ e))
    nil→same p (object fs) (object gs) e =
        same_object
          (λ key. nil→same_entry (append_json_pointer p key) key fs gs (entries-nil p fs gs key e))
    nil→same p v w e = absurd (cons-ne-nil _ _ (visible p _ e))

    nil→same_items :
        (p : Str) (i : ℕ) (vs ws : Items)
        → compare_elements json rules p i vs ws ≡ []
        → SameItems json vs ws
    nil→same_items p i nil nil e = same_nil
    nil→same_items p i nil (cons w ws) e = absurd (
        cons-ne-nil _ _ (
          visible (element_pointer p i) _
            (append-nil_left _ (added_elements json rules p (suc i) ws) e)))
    nil→same_items p i (cons v vs) nil e = absurd (
        cons-ne-nil _ _ (
          visible (element_pointer p i) _
            (append-nil_left _ (removed_elements json rules p (suc i) vs) e)))
    nil→same_items p i (cons v vs) (cons w ws) e =
        same_cons
          (nil→same (element_pointer p i) v w
            (append-nil_left _ (compare_elements json rules p (suc i) vs ws) e))
          (nil→same_items p (suc i) vs ws
            (append-nil_right (compare_json_values json rules (element_pointer p i) v w) _ e))

    nil→same_entry :
        (p key : Str) (fs gs : Fields)
        → compare_field json rules p key fs gs ≡ []
        → SameEntry json (get_field key fs) (get_field key gs)
    nil→same_entry p key end gs e = rw get_field_end (elim (Option-cases (get_field key gs)) [
      | inl n ↦ rw n both_absent
      | inr (w, n) ↦ absurd (cons-ne-nil _ _ (rw (n, compare_field) at e))
    ])
    nil→same_entry p key (field k v fs) gs e = rw get_field_field (elim (Bool-cases (equal k key)) [
      | inl q ↦ elim (Option-cases (get_field key gs)) [
        | inl n ↦ absurd (cons-ne-nil _ _ (rw (q, n, compare_field) at e))
        | inr (w, n) ↦ rw (q, n) (both_present (nil→same p v w (rw (q, n, compare_field) at e)))
      ]
      | inr q ↦ rw q (nil→same_entry p key fs gs (rw (q, compare_field) at e))
    ])

-- With no ignore rules the comparison of two JSON values reports no difference exactly when they are
-- the same: equal scalars, numbers that compare as equal, arrays element by element, and objects with
-- the same entry under every key, in whatever order the keys stand.
pub compare_json_values_iff :
    (json : Codec) (pointer : Str) (v w : Json)
    → (compare_json_values json (record { ignore = [] }) pointer v w ≡ []) ↔ SameJson json v w
compare_json_values_iff json pointer v w = (
  nil→same json (record { ignore = [] }) refl pointer v w,
  same→nil json (record { ignore = [] }) pointer,
)

-- Whatever the ignore rules, values that are the same are reported as the same.
pub same-compare_json_values :
    (json : Codec) (rules : Rules) (pointer : Str) {v w : Json}
    → SameJson json v w
    → compare_json_values json rules pointer v w ≡ []
same-compare_json_values json rules pointer s = same→nil json rules pointer s
