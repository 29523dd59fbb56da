-- ===== src/Diff/Body/Values/Reported.antt =====
-- Where the comparison of JSON values reports differences.
use graybox_core.Diff.Body.Values.{
  json_difference, json_object_keys, compare_json_values, compare_elements, compare_field,
  removed_elements, added_elements, element_pointer, unless_ignored, same_bool,
}
use graybox_core.Diff.Domain.{DifferenceKind, Difference, Value}
use graybox_core.Diff.Location.Ignore.{append_json_pointer-eq}
use graybox_core.Diff.Location.{body, Rules, ignores, body_location, append_json_pointer}
use graybox_core.Diff.Number.{json_numbers_equal}
use graybox_core.Json.Codec.{Codec}
use graybox_core.Json.{
  Json, null, boolean, number, string, array, object, Items, nil, cons, Fields, end, field,
  get_field,
}
use graybox_core.Prelude.{
  ℕ, suc, ◌≡◌, inl, inr, refl, sym, ◌∙◌, Bool, true, false, List, [], ◌∷◌, ◌++◌, if◌then◌else◌,
  Bool-cases, Option-cases, All, All-append, All-concat_map,
}
use graybox_core.Sanitize.Pointer.RoundTrip.{escaped, escape_token-escaped}
use graybox_core.Text.{Str, equal, itoa}
use mathlib.Core.List.{append-nil, append_assoc}

-- The text that a JSON Pointer has behind another one: a slash and an escaped token for each step.
abbrev pub steps_text : List Str → Str
steps_text [] = []
steps_text (token ∷ tokens) = b'/' ∷ escaped token ++ steps_text tokens

-- The difference stands in the body, at a pointer that is `pointer` or is below it by some steps, and
-- that no rule ignores.
pub record Reported (rules : Rules) (pointer : Str) (d : Difference) : Type 0 where
  pub in_body : d.location.component ≡ body
  pub steps : List Str
  pub below : d.location.path ≡ pointer ++ steps_text steps
  pub not_ignored : ignores rules d.location ≡ false

module _ (json : Codec) (rules : Rules) where
  abbrev AllReported : Str → List Difference → Type 0
  AllReported pointer = All (Reported rules pointer)

  lift :
      (pointer token : Str) (ds : List Difference)
      → AllReported (append_json_pointer pointer token) ds
      → AllReported pointer ds
  lift pointer token [] h = tt
  lift pointer token (d ∷ ds) (r, h) = (
    record {
      in_body = r.in_body;
      steps = token ∷ r.steps;
      below =
          r.below
          ∙ rw (append_json_pointer-eq pointer token, escape_token-escaped token)
              (append_assoc pointer (b'/' ∷ escaped token) (steps_text r.steps));
      not_ignored = r.not_ignored;
    },
    lift pointer token ds h,
  )

  unless_ignored-Reported :
      (pointer : Str) (ds : List Difference)
      → (ignores rules (body_location pointer) ≡ false → AllReported pointer ds)
      → AllReported pointer (unless_ignored json rules pointer ds)
  unless_ignored-Reported pointer ds h = elim (Bool-cases (ignores rules (body_location pointer))) [
    | inl e ↦ rw e tt
    | inr e ↦ rw e (h e)
  ]

  single :
      (kind : DifferenceKind) (pointer : Str) (before after : Value)
      → ignores rules (body_location pointer) ≡ false
      → AllReported pointer (json_difference kind pointer before after)
  unfolding json_difference body_location
  single kind pointer before after e =
      (record { in_body = refl; steps = []; below = sym (append-nil pointer); not_ignored = e }, tt)

  unless :
      (pointer : Str) (b : Bool) (ds : List Difference)
      → AllReported pointer ds
      → AllReported pointer (if b then [] else ds)
  unless pointer true ds h = tt
  unless pointer false ds h = h

  removed_elements-Reported :
      (pointer : Str) (i : ℕ) (vs : Items)
      → AllReported pointer (removed_elements json rules pointer i vs)
  unfolding removed_elements
  removed_elements-Reported pointer i nil = tt
  removed_elements-Reported pointer i (cons v vs) =
      All-append (Reported rules pointer) _ (removed_elements json rules pointer (suc i) vs)
        (lift pointer (itoa i) _ (
          unless_ignored-Reported (element_pointer pointer i) _
            (single _ (element_pointer pointer i) _ _)))
        (removed_elements-Reported pointer (suc i) vs)

  added_elements-Reported :
      (pointer : Str) (i : ℕ) (vs : Items)
      → AllReported pointer (added_elements json rules pointer i vs)
  unfolding added_elements
  added_elements-Reported pointer i nil = tt
  added_elements-Reported pointer i (cons v vs) =
      All-append (Reported rules pointer) _ (added_elements json rules pointer (suc i) vs)
        (lift pointer (itoa i) _ (
          unless_ignored-Reported (element_pointer pointer i) _
            (single _ (element_pointer pointer i) _ _)))
        (added_elements-Reported pointer (suc i) vs)

  mutual
    unfolding compare_json_values

    value-Reported :
        (pointer : Str) (v w : Json)
        → AllReported pointer (compare_json_values json rules pointer v w)
    value-Reported pointer null null = unless_ignored-Reported pointer [] (λ _. tt)
    value-Reported pointer (boolean a) (boolean b) =
        unless_ignored-Reported pointer _
          (λ e. unless pointer (same_bool a b) _ (single _ pointer _ _ e))
    value-Reported pointer (number a) (number b) =
        unless_ignored-Reported pointer _
          (λ e. unless pointer (json_numbers_equal json a b) _ (single _ pointer _ _ e))
    value-Reported pointer (string a) (string b) =
        unless_ignored-Reported pointer _
          (λ e. unless pointer (equal a b) _ (single _ pointer _ _ e))
    value-Reported pointer (array vs) (array ws) =
        unless_ignored-Reported pointer _ (λ _. elements-Reported pointer 0 vs ws)
    value-Reported pointer (object fs) (object gs) = unless_ignored-Reported pointer _ (λ _.
        All-concat_map (Reported rules pointer) _ (json_object_keys fs gs) (λ key.
          lift pointer key _ (
            unless_ignored-Reported (append_json_pointer pointer key) _
              (field-Reported (append_json_pointer pointer key) key fs gs))))
    value-Reported pointer v w = unless_ignored-Reported pointer _ (single _ pointer _ _)

    elements-Reported :
        (pointer : Str) (i : ℕ) (vs ws : Items)
        → AllReported pointer (compare_elements json rules pointer i vs ws)
    elements-Reported pointer i nil ws = added_elements-Reported pointer i ws
    elements-Reported pointer i (cons v vs) nil = removed_elements-Reported pointer i (cons v vs)
    elements-Reported pointer i (cons v vs) (cons w ws) =
        All-append (Reported rules pointer)
          (compare_json_values json rules (element_pointer pointer i) v w) _
          (lift pointer (itoa i) _ (value-Reported (element_pointer pointer i) v w))
          (elements-Reported pointer (suc i) vs ws)

    field-Reported :
        (pointer key : Str) (fs gs : Fields)
        → ignores rules (body_location pointer) ≡ false
        → AllReported pointer (compare_field json rules pointer key fs gs)
    field-Reported pointer key end gs e = elim (Option-cases (get_field key gs)) [
      | inl n ↦ rw (n, compare_field) tt
      | inr (w, n) ↦ rw (n, compare_field) (single _ pointer _ _ e)
    ]
    field-Reported pointer key (field k v fs) gs e = elim (Bool-cases (equal k key)) [
      | inl q ↦ elim (Option-cases (get_field key gs)) [
        | inl n ↦ rw (q, n, compare_field) (single _ pointer _ _ e)
        | inr (w, n) ↦ rw (q, n, compare_field) (value-Reported pointer v w)
      ]
      | inr q ↦ rw (q, compare_field) (field-Reported pointer key fs gs e)
    ]

-- Every difference that the comparison of JSON values reports stands in the body, at the pointer that was
-- compared or at one that goes on from it by a slash and an escaped token for each step, and at a
-- location that no rule ignores.
pub compare_json_values-Reported :
    (json : Codec) (rules : Rules) (pointer : Str) (v w : Json)
    → All (Reported rules pointer) (compare_json_values json rules pointer v w)
compare_json_values-Reported json rules pointer v w = value-Reported json rules pointer v w
