-- ===== src/Sanitize/Fields/Replace.antt =====
-- Selecting a JSON field and replacing it, which `replaceJSON` does with and without a value.
use graybox_core.Dict.{lookup, put}
use graybox_core.Failure.{Result, ok, err, ◌>>=◌, Result-cases}
use graybox_core.Platform.{Platform}
use graybox_core.Prelude.{
  Bool, true, false, ◌≡◌, ◌⊎◌, inl, inr, refl, List, [], ◌∷◌, Option, none, some, arith, Bool-cases,
  Option-cases,
}
use graybox_core.Sanitize.Fields.{
  opens_with, array_index, get_elem?, set, put_back, replace_scalar, replace_json,
}
use graybox_core.Sanitize.Redact.{is_redacted}
use graybox_core.Text.{Str}

-- A result that says nothing was found, or that replaces nothing, is the text itself.
abbrev pub Unchanged : Str → Option Str → Result (Str × Bool) → Type 0
Unchanged raw value (err e) = Unit
Unchanged raw none (ok (updated, found)) = updated ≡ raw
Unchanged raw (some v) (ok (updated, false)) = updated ≡ raw
Unchanged raw (some v) (ok (updated, true)) = Unit

-- Two results that do not differ on whether the field was found.
abbrev pub Agree : Result (Str × Bool) → Result (Str × Bool) → Type 0
Agree (err e) r = Unit
Agree (ok p) (err e) = Unit
Agree (ok p) (ok q) = p.1 ≡ q.1

put_back-Unchanged :
    (raw : Str) (value : Option Str) (rebuild : Str → Result Str) (r : Result (Str × Bool))
    → Unchanged raw value (r >>= put_back value raw rebuild)
unfolding put_back
put_back-Unchanged raw value rebuild (err e) = tt
put_back-Unchanged raw none rebuild (ok (updated, false)) = refl
put_back-Unchanged raw none rebuild (ok (updated, true)) = refl
put_back-Unchanged raw (some v) rebuild (ok (updated, false)) = refl
put_back-Unchanged raw (some v) rebuild (ok (updated, true)) =
    elim (Result-cases (rebuild updated)) [ inl (w, h) ↦ rw h tt | inr (e, h) ↦ rw h tt ]

put_back-Agree :
    (raw : Str) (v : Str) (rebuild : Str → Result Str) (r s : Result (Str × Bool))
    → Agree r s
    → Agree (r >>= put_back none raw rebuild) (s >>= put_back (some v) raw rebuild)
unfolding put_back
put_back-Agree raw v rebuild (err e) s a = tt
put_back-Agree raw v rebuild (ok (x, false)) (err e) a = tt
put_back-Agree raw v rebuild (ok (x, true)) (err e) a = tt
put_back-Agree raw v rebuild (ok (x, false)) (ok (y, false)) a = refl
put_back-Agree raw v rebuild (ok (x, true)) (ok (y, false)) a = a
put_back-Agree raw v rebuild (ok (x, false)) (ok (y, true)) a = ground arith
put_back-Agree raw v rebuild (ok (x, true)) (ok (y, true)) a = elim (Result-cases (rebuild y)) [
  | inl (w, h) ↦ rw h refl
  | inr (e, h) ↦ rw h tt
]

-- Both, of the results without and with a value.
abbrev pub Sound : Str → Str → Result (Str × Bool) → Result (Str × Bool) → Type 0
Sound raw v r s = Agree r s × Unchanged raw none r × Unchanged raw (some v) s

put_back-Sound :
    (raw : Str) (v : Str) (rebuild : Str → Result Str) (r s : Result (Str × Bool))
    → Agree r s
    → Sound raw v (r >>= put_back none raw rebuild) (s >>= put_back (some v) raw rebuild)
put_back-Sound raw v rebuild r s a = (
  put_back-Agree raw v rebuild r s a,
  put_back-Unchanged raw none rebuild r,
  put_back-Unchanged raw (some v) rebuild s,
)

module _ (go : Platform) where
  replace_scalar-Sound :
      (raw v : Str) → Sound raw v (replace_scalar go raw none) (replace_scalar go raw (some v))
  unfolding replace_scalar
  replace_scalar-Sound raw v = elim (Option-cases (go.unmarshal_string raw)) [
    | inl e ↦ rw (replace_scalar, e) (refl, refl, refl)
    | inr (s, e) ↦ elim (Bool-cases (is_redacted s)) [
      | inl f ↦ rw (replace_scalar, e, f) (tt, tt, refl)
      | inr f ↦ rw (replace_scalar, e, f) (refl, refl, refl)
    ]
  ]

  replace_json-Sound :
      (raw : Str) (parts : List Str) (v : Str)
      → Sound raw v (replace_json go raw parts none) (replace_json go raw parts (some v))
  unfolding replace_json
  replace_json-Sound raw [] v = (refl, refl, tt)
  replace_json-Sound raw (part ∷ parts) v = elim (Bool-cases (opens_with b'{' raw)) [
    | inl e ↦ elim (Option-cases (go.unmarshal_object raw)) [
      | inl m ↦ rw (e, m) (tt, tt, tt)
      | inr (members, m) ↦ elim (Option-cases (lookup part members)) [
        | inl n ↦ rw (e, m, n) (refl, refl, refl)
        | inr (child, n) ↦
            rw (e, m, n)
              (put_back-Sound raw v (λ updated. go.marshal_object (put part updated members))
                (replace_json go child parts none) (replace_json go child parts (some v))
                (replace_json-Sound child parts v).0)
      ]
    ]
    | inr e ↦ elim (Bool-cases (opens_with b'[' raw)) [
      | inl f ↦ elim (Option-cases (go.unmarshal_array raw)) [
        | inl m ↦ rw (e, f, m) (tt, tt, tt)
        | inr (elements, m) ↦ elim (Option-cases (array_index part)) [
          | inl n ↦ rw (e, f, m, n) (refl, refl, refl)
          | inr (i, n) ↦ elim (Option-cases (get_elem? elements i)) [
            | inl o ↦ rw (e, f, m, n, o) (refl, refl, refl)
            | inr (child, o) ↦
                rw (e, f, m, n, o)
                  (put_back-Sound raw v (λ updated. go.marshal_array (set elements i updated))
                    (replace_json go child parts none) (replace_json go child parts (some v))
                    (replace_json-Sound child parts v).0)
          ]
        ]
      ]
      | inr f ↦ rw (e, f) (replace_scalar-Sound raw v)
    ]
  ]

-- Selecting a field changes nothing, and replacing changes nothing where the field is not found.
-- Where both come to a result, selecting finds the field exactly where replacing it does.
pub replace_json-found :
    (go : Platform) (raw : Str) (parts : List Str) (v selected replaced : Str)
    (found changed : Bool)
    → replace_json go raw parts none ≡ ok (selected, found)
    → replace_json go raw parts (some v) ≡ ok (replaced, changed)
    → (selected ≡ raw) × (found ≡ changed) × ((changed ≡ true) ⊎ (replaced ≡ raw))
replace_json-found go raw parts v selected replaced found changed p q =
    let sound = rw (p, q) at (replace_json-Sound go raw parts v) in
    (
      sound.1,
      sound.0,
      (elim (Bool-cases changed) [ inl e ↦ inl e | inr e ↦ inr (rw e at sound.2) ]),
    )
