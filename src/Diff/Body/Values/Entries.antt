-- ===== src/Diff/Body/Values/Entries.antt =====
-- The keys of two objects, and the comparison of the entries under one key.
use graybox_core.Dict.{add_keys}
use graybox_core.Dict.Laws.{In-add_keys, Distinct-add_keys}
use graybox_core.Diff.Body.Values.{
  json_object_keys, added, removed, compare_json_values, compare_field,
}
use graybox_core.Diff.Domain.{field_added, field_removed, Difference}
use graybox_core.Diff.Location.{Rules}
use graybox_core.Json.Codec.{Codec}
use graybox_core.Json.{Json, Fields, end, field, get_field, field_keys}
use graybox_core.Prelude.{
  ◌≡◌, ◌≢◌, ◌↔◌, ◌⊎◌, inl, inr, refl, sym, List, [], Option, none, some, arith, if◌then◌else◌,
  Bool-cases, Option-cases,
}
use graybox_core.Sort.Laws.{In, Distinct, less-StrictOrder, sort_by-In, sort_by-ext}
use graybox_core.Sort.{sort_strings}
use graybox_core.Text.Laws.{equal_iff}
use graybox_core.Text.{Str, equal, less}

pub get_field_end : (key : Str) → get_field key end ≡ none
unfolding get_field
get_field_end key = refl

pub get_field_field :
    (key k : Str) (v : Json) (fs : Fields)
    → get_field key (field k v fs) ≡ (if equal k key then some v else get_field key fs)
unfolding get_field
get_field_field key k v fs = refl

pub get_field→In : (key : Str) (fs : Fields) → get_field key fs ≢ none → In key (field_keys fs)
unfolding get_field
get_field→In key end h = absurd (h refl)
get_field→In key (field k v fs) h = elim (Bool-cases (equal k key)) [
  | inl e ↦ inl (sym ((equal_iff k key).0 e))
  | inr e ↦ inr (get_field→In key fs (rw e at h))
]

pub In→get_field : (key : Str) (fs : Fields) → In key (field_keys fs) → get_field key fs ≢ none
unfolding get_field
In→get_field key end h = absurd h
In→get_field key (field k v fs) (inl p) = ground (arith, (equal_iff k key).1 (sym p))
In→get_field key (field k v fs) (inr p) = ground (arith, In→get_field key fs p)

abbrev key_union : Fields → Fields → List Str
key_union fs gs = add_keys (field_keys gs) (add_keys (field_keys fs) [])

abbrev InEither : Str → Fields → Fields → Type 0
InEither key fs gs = In key (field_keys fs) ⊎ In key (field_keys gs)

In-key_union : (key : Str) (fs gs : Fields) → In key (key_union fs gs) ↔ InEither key fs gs
In-key_union key fs gs = (
  λ h. elim ((In-add_keys key (field_keys gs) (add_keys (field_keys fs) [])).0 h) [
    | inl p ↦ inr p
    | inr p ↦ elim ((In-add_keys key (field_keys fs) []).0 p) [ inl q ↦ inl q | inr q ↦ absurd q ]
  ],
  λ h.
      (In-add_keys key (field_keys gs) (add_keys (field_keys fs) [])).1
        (elim h [ inl p ↦ inr ((In-add_keys key (field_keys fs) []).1 (inl p)) | inr p ↦ inl p ]),
)

Distinct-key_union : (fs gs : Fields) → Distinct (key_union fs gs)
Distinct-key_union fs gs =
    Distinct-add_keys (field_keys gs) (add_keys (field_keys fs) [])
      (Distinct-add_keys (field_keys fs) [] tt)

-- Every key of either object is compared.
pub In-json_object_keys :
    (key : Str) (fs gs : Fields)
    → In key (field_keys fs) ⊎ In key (field_keys gs)
    → In key (json_object_keys fs gs)
unfolding json_object_keys sort_strings
In-json_object_keys key fs gs h =
    sort_by-In less key (key_union fs gs) ((In-key_union key fs gs).1 h)

-- Objects with the same keys are walked in the same order.
pub json_object_keys-ext :
    (fs gs fs' gs' : Fields)
    → ((key : Str)
        → In key (field_keys fs) ⊎ In key (field_keys gs)
        → In key (field_keys fs') ⊎ In key (field_keys gs'))
    → ((key : Str)
        → In key (field_keys fs') ⊎ In key (field_keys gs')
        → In key (field_keys fs) ⊎ In key (field_keys gs))
    → json_object_keys fs gs ≡ json_object_keys fs' gs'
unfolding json_object_keys sort_strings
json_object_keys-ext fs gs fs' gs' f g =
    sort_by-ext less less-StrictOrder (key_union fs gs) (key_union fs' gs')
      (Distinct-key_union fs gs) (Distinct-key_union fs' gs')
      (λ key h. (In-key_union key fs' gs').1 (f key ((In-key_union key fs gs).0 h)))
      (λ key h. (In-key_union key fs gs).1 (g key ((In-key_union key fs' gs').0 h)))

module _ (json : Codec) (rules : Rules) (pointer : Str) where
  -- The `switch` of `compareJSONObjects` as a table.
  abbrev pub by_presence : Option Json → Option Json → List Difference
  by_presence none none = []
  by_presence none (some w) = added field_added pointer w
  by_presence (some v) none = removed field_removed pointer v
  by_presence (some v) (some w) = compare_json_values json rules pointer v w

  -- `compare_field` looks the key up in both objects.
  pub compare_field_lem :
      (key : Str) (fs gs : Fields)
      → compare_field json rules pointer key fs gs
        ≡ by_presence (get_field key fs) (get_field key gs)
  unfolding compare_field
  compare_field_lem key end gs = rw get_field_end (elim (Option-cases (get_field key gs)) [
    | inl e ↦ rw (e, compare_field)
    | inr (w, e) ↦ rw (e, compare_field)
  ])
  compare_field_lem key (field k v fs) gs = rw get_field_field (elim (Bool-cases (equal k key)) [
    | inl e ↦ elim (Option-cases (get_field key gs)) [
      | inl n ↦ rw (e, n, compare_field)
      | inr (w, n) ↦ rw (e, n, compare_field)
    ]
    | inr e ↦ rw (e, compare_field) (compare_field_lem key fs gs)
  ])
