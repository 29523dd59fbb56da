-- ===== src/Sanitize/Capture/Existing.antt =====
-- `ExistingValues` with `ReplaceValues`: what is selected can be replaced.
use graybox_core.Dict.Laws.{lookup-put}
use graybox_core.Dict.{Dict, keys, lookup, put}
use graybox_core.Failure.{Error, ok, err, Result-cases}
use graybox_core.Platform.{Platform, Values}
use graybox_core.Prelude.{
  true, ◌≡◌, ◌≢◌, ◌⊎◌, ap, inl, inr, refl, List, [], ◌∷◌, none, some, arith, Option-cases,
}
use mathlib.Core.Path.{subst}
use graybox_core.Sanitize.Capture.{
  fill, replace_keys, existing_keys, replace_values, existing_values,
}
use graybox_core.Sanitize.Fields.{sorted_keys, value_at}
use graybox_core.Sort.Laws.{In, In-sort_by}
use graybox_core.Sort.{sort_strings}
use graybox_core.Text.{Str, less}

-- Every name has values in the form.
abbrev Present : List Str → Values → Type 0
Present names parsed = (k : Str) → In k names → lookup k parsed ≢ none

existing_keys-Present :
    (parsed : Values) (values : Dict Str) → Present (keys (existing_keys parsed values)) parsed
unfolding existing_keys
existing_keys-Present parsed [] k i = absurd i
existing_keys-Present parsed ((key, value) ∷ values) k i = elim (Option-cases (lookup key parsed)) [
  | inl n ↦ existing_keys-Present parsed values k (rw (existing_keys, n) at i)
  | inr (items, n) ↦ elim (named items n i) [
    | inl p ↦ λ e. cc
    | inr j ↦ existing_keys-Present parsed values k j
  ]
]
  where
    named :
        (items : List Str)
        → lookup key parsed ≡ some items
        → In k (keys (existing_keys parsed ((key, value) ∷ values)))
        → (k ≡ key) ⊎ In k (keys (existing_keys parsed values))
    named items n i = rw (existing_keys, n) at i

Present-put :
    (names : List Str) (key : Str) (items : List Str) (parsed : Values)
    → Present names parsed
    → Present names (put key items parsed)
Present-put names key items parsed h k i = ground (arith, lookup-put key k items parsed, h k i)

ok_injective : (m n : Dict Str) → ok m ≡ ok n → m ≡ n
ok_injective m n e = ap (λ r. elim r [ ok x ↦ x | err x ↦ m ]) e

replace_keys-ok :
    (values : Dict Str) (names : List Str) (parsed : Values)
    → Present names parsed
    → (replaced : Values) × (replace_keys values true names parsed ≡ ok replaced)
unfolding replace_keys
replace_keys-ok values [] parsed h = (parsed, refl)
replace_keys-ok values (key ∷ names) parsed h = elim (Option-cases (lookup key parsed)) [
  | inl n ↦ absurd (h key (inl refl) n)
  | inr (items, n) ↦
      rw (replace_keys, n)
        (replace_keys-ok values names (put key (fill (value_at key values) items) parsed)
          (Present-put names key (fill (value_at key values) items) parsed (λ k i. h k (inr i))))
]

-- The values that `ExistingValues` selects in a query or form can always be replaced there, although
-- `ReplaceValues` requires every one of them.
pub replace_values-existing_values :
    (go : Platform) (raw : Str) (values matched : Dict Str)
    → existing_values go raw values ≡ ok matched
    → (encoded : Str) × (replace_values go raw matched true ≡ ok encoded)
unfolding existing_values replace_values sorted_keys sort_strings
replace_values-existing_values go raw values matched h = elim (Result-cases (go.parse_query raw)) [
  | inl (parsed, e) ↦
      let selected =
        ok_injective (existing_keys parsed values) matched (rw (existing_values, e) at h) in
      let (replaced, f) = replace_keys-ok matched (sorted_keys matched) parsed (λ k i.
        subst (λ m. Present (keys m) parsed) selected (existing_keys-Present parsed values) k
          (In-sort_by less k (keys matched) i)) in
      (go.encode_query replaced, rw (replace_values, e, f) refl)
  | inr (x, e) ↦ absurd (refused _ (rw (existing_values, e) at h))
]
  where
    refused : (x : Error) → err x ≡ ok matched → ⊥
    refused x e = cc
