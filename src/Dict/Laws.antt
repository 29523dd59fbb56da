-- ===== src/Dict/Laws.antt =====
-- Laws of maps and of sets of keys.
use graybox_core.Dict.{Dict, contains, add_key, add_keys, keys, lookup, put}
use graybox_core.Prelude.{
  true, ◌≡◌, ◌≢◌, ◌↔◌, ◌⊎◌, inl, inr, refl, sym, List, [], ◌∷◌, ◌++◌, none, some, arith,
  if◌then◌else◌, Bool-cases,
}
use graybox_core.Sort.Laws.{In, Distinct}
use graybox_core.Text.{Str, equal}
use graybox_core.Text.Laws.{equal_iff}

pub contains→In : (js : List Str) (k : Str) → contains js k ≡ true → In k js
contains→In [] k h = ground arith
contains→In (j ∷ js) k h = elim (Bool-cases (equal j k)) [
  | inl e ↦ inl (sym ((equal_iff j k).0 e))
  | inr e ↦ inr (contains→In js k (ground arith))
]

pub In→contains : (js : List Str) (k : Str) → In k js → contains js k ≡ true
In→contains [] k h = absurd h
In→contains (j ∷ js) k (inl p) = ground (arith, (equal_iff j k).1 (sym p))
In→contains (j ∷ js) k (inr p) = ground (arith, In→contains js k p)

pub In-append : {A : Type 0} (a : A) (xs ys : List A) → In a (xs ++ ys) ↔ (In a xs ⊎ In a ys)
In-append a [] ys = (inr, λ h. elim h [ inl p ↦ absurd p | inr p ↦ p ])
In-append a (x ∷ xs) ys = (
  λ h. elim h [
    | inl p ↦ inl (inl p)
    | inr p ↦ elim ((In-append a xs ys).0 p) [ inl q ↦ inl (inr q) | inr q ↦ inr q ]
  ],
  λ h. elim h [
    | inl (inl p) ↦ inl p
    | inl (inr p) ↦ inr ((In-append a xs ys).1 (inl p))
    | inr p ↦ inr ((In-append a xs ys).1 (inr p))
  ],
)

pub In-add_key : (a k : Str) (js : List Str) → In a (add_key k js) ↔ ((a ≡ k) ⊎ In a js)
unfolding add_key
In-add_key a k js = elim (Bool-cases (contains js k)) [
  | inl e ↦ rw e (inr, λ h. elim h [ inl p ↦ rw p (contains→In js k e) | inr p ↦ p ])
  | inr e ↦ rw e (
    λ h. elim ((In-append a js (k ∷ [])).0 h) [
      | inl p ↦ inr p
      | inr (inl p) ↦ inl p
      | inr (inr p) ↦ absurd p
    ],
    λ h. (In-append a js (k ∷ [])).1 (elim h [ inl p ↦ inr (inl p) | inr p ↦ inl p ]),
  )
]

pub In-add_keys : (a : Str) (ks js : List Str) → In a (add_keys ks js) ↔ (In a ks ⊎ In a js)
unfolding add_keys
In-add_keys a [] js = (inr, λ h. elim h [ inl p ↦ absurd p | inr p ↦ p ])
In-add_keys a (k ∷ ks) js = (
  λ h. elim ((In-add_keys a ks (add_key k js)).0 h) [
    | inl p ↦ inl (inr p)
    | inr p ↦ elim ((In-add_key a k js).0 p) [ inl q ↦ inl (inl q) | inr q ↦ inr q ]
  ],
  λ h. (In-add_keys a ks (add_key k js)).1 (elim h [
    | inl (inl p) ↦ inr ((In-add_key a k js).1 (inl p))
    | inl (inr p) ↦ inl p
    | inr p ↦ inr ((In-add_key a k js).1 (inr p))
  ]),
)

pub Distinct-concat :
    {A : Type 0} (js : List A) (k : A) → Distinct js → ¬ In k js → Distinct (js ++ k ∷ [])
Distinct-concat [] k d n = (λ h. h, tt)
Distinct-concat (j ∷ js) k d n = (
  λ h. elim ((In-append j js (k ∷ [])).0 h) [
    | inl p ↦ d.0 p
    | inr (inl p) ↦ n (inl (sym p))
    | inr (inr p) ↦ p
  ],
  Distinct-concat js k d.1 (λ h. n (inr h)),
)

Distinct-add_key : (k : Str) (js : List Str) → Distinct js → Distinct (add_key k js)
unfolding add_key
Distinct-add_key k js d = elim (Bool-cases (contains js k)) [
  | inl e ↦ rw e d
  | inr e ↦ rw e (Distinct-concat js k d (λ h. ground (arith, In→contains js k h)))
]

pub Distinct-add_keys : (ks js : List Str) → Distinct js → Distinct (add_keys ks js)
unfolding add_keys
Distinct-add_keys [] js d = d
Distinct-add_keys (k ∷ ks) js d = Distinct-add_keys ks (add_key k js) (Distinct-add_key k js d)

module _ {ℓ} {V : Type ℓ} where
  pub lookup-put :
      (k j : Str) (v : V) (m : Dict V)
      → lookup j (put k v m) ≡ (if equal k j then some v else lookup j m)
  unfolding lookup put
  lookup-put k j v [] = refl
  lookup-put k j v ((i, w) ∷ m) =
      ground (arith, equal_iff k j, equal_iff i k, equal_iff i j, lookup-put k j v m)

  -- A key is listed exactly when it has a value.
  pub In-keys : (k : Str) (m : Dict V) → In k (keys m) → lookup k m ≢ none
  unfolding lookup
  In-keys k [] h = absurd h
  In-keys k ((j, v) ∷ m) (inl p) = ground (arith, (equal_iff j k).1 (sym p))
  In-keys k ((j, v) ∷ m) (inr p) = ground (arith, In-keys k m p)

  pub lookup→In : (k : Str) (m : Dict V) → lookup k m ≢ none → In k (keys m)
  unfolding lookup
  lookup→In k [] h = absurd (h refl)
  lookup→In k ((j, v) ∷ m) h = elim (Bool-cases (equal j k)) [
    | inl e ↦ inl (sym ((equal_iff j k).0 e))
    | inr e ↦ inr (lookup→In k m (rw e at h))
  ]

-- Two maps with the same entry under every key.
abbrev pub SameDict {ℓ} : {V : Type ℓ} → Dict V → Dict V → Type ℓ
SameDict m n = (k : Str) → lookup k m ≡ lookup k n
