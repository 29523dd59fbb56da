-- ===== src/Diff/Headers/Report.antt =====
-- Which headers `compareHeaders` reports.
use graybox_core.Dict.Laws.{In-add_keys, lookup→In, SameDict}
use graybox_core.Dict.{add_keys, keys, lookup}
use graybox_core.Diff.Domain.{Difference}
use graybox_core.Diff.Headers.Normal.{normalize_headers-SameDict}
use graybox_core.Diff.Headers.{
  equal_values, normalize_headers, header_names, header_switch, compare_normalized, compare_headers,
}
use graybox_core.Diff.Location.{Location, Rules, ignores, header_location}
use graybox_core.Prelude.{
  true, false, ◌≡◌, ◌↔◌, ◌⊎◌, refl, sym, ◌∙◌, ap, ap₂, inl, inr, List, [], ◌∷◌, ◌++◌, Option, none,
  some, arith, if◌then◌else◌, Bool-cases, Option-cases, concat_map,
}
use graybox_core.Recording.{Headers}
use graybox_core.Sort.Laws.{In, Distinct, sort_by-In}
use graybox_core.Sort.{sort_strings}
use graybox_core.Text.Laws.{equal_iff}
use graybox_core.Text.{Str, less}
use mathlib.Core.List.{cons-ne-nil}

pub equal_values_iff : (vs ws : List Str) → (equal_values vs ws ≡ true) ↔ (vs ≡ ws)
unfolding equal_values
equal_values_iff [] [] = ground arith
equal_values_iff [] (y ∷ ys) = ground arith
equal_values_iff (x ∷ xs) [] = ground arith
equal_values_iff (x ∷ xs) (y ∷ ys) = ground (arith, equal_iff x y, equal_values_iff xs ys)

-- A name is reported exactly when its two entries differ.
header_switch_iff : (l : Location) (o q : Option (List Str)) → (header_switch l o q ≡ []) ↔ (o ≡ q)
unfolding header_switch
header_switch_iff l none none = (λ _. refl, λ _. refl)
header_switch_iff l none (some ws) = (λ h. cc, λ h. cc)
header_switch_iff l (some vs) none = (λ h. cc, λ h. cc)
header_switch_iff l (some vs) (some ws) = elim (Bool-cases (equal_values vs ws)) [
  | inl e ↦ rw e (λ _. ap some ((equal_values_iff vs ws).0 e), λ _. refl)
  | inr e ↦ rw e (λ h. cc, λ h. cc ((equal_values_iff vs ws).1 (cc)))
]

In-header_names :
    (name : Str) (b c : Headers) → In name (keys b) ⊎ In name (keys c) → In name (header_names b c)
unfolding header_names sort_strings
In-header_names name b c h = sort_by-In less name (add_keys (keys c) (add_keys (keys b) [])) (
    (In-add_keys name (keys c) (add_keys (keys b) [])).1
      (elim h [ inl p ↦ inr ((In-add_keys name (keys b) []).1 (inl p)) | inr p ↦ inl p ]))

module _ (f : Str → List Difference) where
  append-nil_both : (xs ys : List Difference) → xs ++ ys ≡ [] → (xs ≡ []) × (ys ≡ [])
  append-nil_both [] ys e = (refl, e)
  append-nil_both (x ∷ xs) ys e = absurd (cons-ne-nil x (xs ++ ys) e)

  concat_map-nil_at :
      (names : List Str) (name : Str) → In name names → concat_map f names ≡ [] → f name ≡ []
  concat_map-nil_at [] name h e = absurd h
  concat_map-nil_at (n ∷ names) name (inl p) e =
      rw p (append-nil_both (f n) (concat_map f names) e).0
  concat_map-nil_at (n ∷ names) name (inr p) e =
      concat_map-nil_at names name p (append-nil_both (f n) (concat_map f names) e).1

  concat_map-nil : (names : List Str) → ((name : Str) → f name ≡ []) → concat_map f names ≡ []
  concat_map-nil [] h = refl
  concat_map-nil (n ∷ names) h = rw (h n) (concat_map-nil names h)

module _ (rules : Rules) (b c : Headers) where
  abbrev report : Str → List Difference
  report name =
      if ignores rules (header_location name)
      then []
      else header_switch (header_location name) (lookup name b) (lookup name c)

  report-nil :
      (name : Str)
      → (ignores rules (header_location name) ≡ false → lookup name b ≡ lookup name c)
      → report name ≡ []
  report-nil name h = elim (Bool-cases (ignores rules (header_location name))) [
    | inl e ↦ rw e
    | inr e ↦
        rw e ((header_switch_iff (header_location name) (lookup name b) (lookup name c)).1 (h e))
  ]

  nil-report :
      (name : Str)
      → report name ≡ []
      → ignores rules (header_location name) ≡ false
      → lookup name b ≡ lookup name c
  nil-report name h e =
      (header_switch_iff (header_location name) (lookup name b) (lookup name c)).0 (rw e at h)

  compare_normalized_iff : (compare_normalized rules b c ≡ []) ↔ (
      (name : Str) → ignores rules (header_location name) ≡ false → lookup name b ≡ lookup name c)
  unfolding compare_normalized
  compare_normalized_iff = (
    λ e name visible. elim (Option-cases (lookup name b)) [
      | inl n ↦ elim (Option-cases (lookup name c)) [
        | inl m ↦ n ∙ sym m
        | inr (ws, m) ↦
            nil-report name
              (concat_map-nil_at report (header_names b c) name
                (In-header_names name b c (inr (lookup→In name c (rw m (λ k. cc))))) e)
              visible
      ]
      | inr (vs, n) ↦
          nil-report name
            (concat_map-nil_at report (header_names b c) name
              (In-header_names name b c (inl (lookup→In name b (rw n (λ k. cc))))) e)
            visible
    ],
    λ h. concat_map-nil report (header_names b c) (λ name. report-nil name (h name)),
  )

-- No header difference is reported exactly when every name that no rule ignores has the same entry in
-- both normalized header maps: absent from both, or present with the same values in the same order.
pub compare_headers_iff :
    (b c : Headers) (rules : Rules)
    → (compare_headers b c rules ≡ []) ↔ (
        (name : Str)
        → ignores rules (header_location name) ≡ false
        → lookup name (normalize_headers b) ≡ lookup name (normalize_headers c))
unfolding compare_headers
compare_headers_iff b c rules =
    compare_normalized_iff rules (normalize_headers b) (normalize_headers c)

-- The header differences, their order included, do not depend on the order in which the two header
-- maps yield their entries.
pub compare_headers-SameDict :
    (b b' c c' : Headers) (rules : Rules)
    → Distinct (keys b)
    → Distinct (keys b')
    → Distinct (keys c)
    → Distinct (keys c')
    → SameDict b b'
    → SameDict c c'
    → compare_headers b c rules ≡ compare_headers b' c' rules
unfolding compare_headers
compare_headers-SameDict b b' c c' rules db db' dc dc' eb ec =
    ap₂ (compare_normalized rules) (normalize_headers-SameDict b b' db db' eb)
      (normalize_headers-SameDict c c' dc dc' ec)
