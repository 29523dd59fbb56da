-- ===== src/Cli/Redactor/Forms.antt =====
-- Which forms a redactor knows, and in which order.
use graybox_core.Cli.Redactor.{
  Spellings, secret_forms, append_value, append_all, longer, new_secret_redactor,
}
use graybox_core.Dict.Laws.{contains→In, In-append}
use graybox_core.Dict.{contains}
use graybox_core.Prelude.{
  ℕ, ◌≤◌, true, ◌≡◌, ◌≢◌, ◌⊎◌, inl, inr, refl, sym, ◌∙◌, List, [], ◌∷◌, arith, length, concat_map,
  Bool-cases,
}
use graybox_core.Sort.Laws.{In, In-insert_by}
use graybox_core.Sort.{insert_by, sort_by}
use graybox_core.Text.Laws.{equal_iff}
use graybox_core.Text.{Str, equal}
use mathlib.Core.Path.{subst}

-- The longer texts stand first.
abbrev pub LongestFirst : List Str → Type 0
LongestFirst [] = Unit
LongestFirst (x ∷ xs) = ((y : Str) → In y xs → length y ≤ length x) × LongestFirst xs

pub ap_length : (z x : Str) → z ≡ x → {n : ℕ} → length x ≤ n → length z ≤ n
ap_length z x p h = rw p h

insert_by-LongestFirst :
    (x : Str) (ys : List Str) → LongestFirst ys → LongestFirst (insert_by longer x ys)
unfolding insert_by
insert_by-LongestFirst x [] h = (λ y k. absurd k, tt)
insert_by-LongestFirst x (y ∷ ys) h = elim (Bool-cases (longer y x)) [
  | inl e ↦
      rw (insert_by, e)
        (
          λ z k. elim (In-insert_by longer z x ys k) [
            | inl p ↦ ap_length z x p (ground arith)
            | inr m ↦ h.0 z m
          ],
          insert_by-LongestFirst x ys h.1,
        )
  | inr e ↦
      rw (insert_by, e)
        (
          λ z k. elim k [
            | inl p ↦ ap_length z y p (ground arith)
            | inr m ↦ let first : length y ≤ length x = ground arith in omega (arith, h.0 z m)
          ],
          h,
        )
]

pub sort_by-LongestFirst : (xs : List Str) → LongestFirst (sort_by longer xs)
unfolding sort_by
sort_by-LongestFirst [] = tt
sort_by-LongestFirst (x ∷ xs) =
    insert_by-LongestFirst x (sort_by longer xs) (sort_by-LongestFirst xs)

append_value-In :
    (x value : Str) (rs : List Str) → x ≢ [] → (x ≡ value) ⊎ In x rs → In x (append_value value rs)
unfolding append_value
append_value-In x value rs n h =
    let filled : equal value [] ≡ true → In x rs =
      λ e. elim h [ inl p ↦ absurd (n (p ∙ (equal_iff value []).0 e)) | inr m ↦ m ] in
    elim (Bool-cases (equal value [])) [
      | inl e ↦ rw e (filled e)
      | inr e ↦ elim (Bool-cases (contains rs value)) [
        | inl k ↦
            rw (e, k)
              (elim h [ inl p ↦ subst (λ z. In z rs) (sym p) (contains→In rs value k) | inr m ↦ m ])
        | inr k ↦
            rw (e, k)
              ((In-append x rs (value ∷ [])).1 (elim h [ inl p ↦ inr (inl p) | inr m ↦ inl m ]))
      ]
    ]

pub append_all-In :
    (x : Str) (values rs : List Str) → x ≢ [] → In x values ⊎ In x rs → In x (append_all values rs)
unfolding append_all
append_all-In x [] rs n h = elim h [ inl m ↦ absurd m | inr m ↦ m ]
append_all-In x (value ∷ values) rs n h = append_all-In x values (append_value value rs) n (elim h [
  | inl (inl p) ↦ inr (append_value-In x value rs n (inl p))
  | inl (inr m) ↦ inl m
  | inr m ↦ inr (append_value-In x value rs n (inr m))
])

append_value-full : (value : Str) (rs : List Str) → ¬ In [] rs → ¬ In [] (append_value value rs)
unfolding append_value
append_value-full value rs n = elim (Bool-cases (equal value [])) [
  | inl e ↦ rw e n
  | inr e ↦ elim (Bool-cases (contains rs value)) [
    | inl k ↦ rw (e, k) n
    | inr k ↦
        rw (e, k)
          (λ m. elim ((In-append [] rs (value ∷ [])).0 m) [
            | inl q ↦ n q
            | inr (inl p) ↦ cc ((equal_iff value []).1 (sym p))
            | inr (inr q) ↦ q
          ])
  ]
]

pub append_all-full : (values rs : List Str) → ¬ In [] rs → ¬ In [] (append_all values rs)
unfolding append_all append_value
append_all-full [] rs n = n
append_all-full (value ∷ values) rs n =
    append_all-full values (append_value value rs) (append_value-full value rs n)

pub In-concat_map :
    {A B : Type 0} (f : A → List B) (xs : List A) (a : A) (b : B)
    → In a xs
    → In b (f a)
    → In b (concat_map f xs)
In-concat_map f [] a b m k = absurd m
In-concat_map f (x ∷ xs) a b (inl p) k = (In-append b (f x) (concat_map f xs)).1 (inl (rw (← p) k))
In-concat_map f (x ∷ xs) a b (inr m) k =
    (In-append b (f x) (concat_map f xs)).1 (inr (In-concat_map f xs a b m k))

abbrev pub collected : Spellings → List Str → List Str
collected go secrets = append_all (concat_map (secret_forms go) secrets) []

-- A redactor with forms is not the nil one.
pub forms_branch :
    {A : Type 0} (fs : List Str) (x y : A) → fs ≢ [] → (elim fs [ [] ↦ x | ◌∷◌ g gs ↦ y ]) ≡ y
forms_branch [] x y n = absurd (n refl)
forms_branch (f ∷ fs) x y n = refl

List-cases : (fs : List Str) → (fs ≡ []) ⊎ ((g : Str) × (gs : List Str) × (fs ≡ g ∷ gs))
List-cases [] = inl refl
List-cases (f ∷ fs) = inr (f, fs, refl)

pub new_secret_redactor-forms :
    (go : Spellings) (secrets : List Str)
    → (new_secret_redactor go secrets).forms ≡ sort_by longer (collected go secrets)
unfolding new_secret_redactor
new_secret_redactor-forms go secrets = elim (List-cases (sort_by longer (collected go secrets))) [
  | inl e ↦ rw (new_secret_redactor, e)
  | inr (f, fs, e) ↦ rw (new_secret_redactor, e)
]
