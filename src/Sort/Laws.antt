-- ===== src/Sort/Laws.antt =====
-- Membership, ascending lists, and why sorting forgets the order of its input.
use graybox_core.Prelude.{
  Bool, true, false, ◌≡◌, ◌⊎◌, inl, inr, refl, sym, ap₂, List, [], ◌∷◌, arith, Bool-cases,
}
use graybox_core.Sort.{insert_by, sort_by}
use graybox_core.Text.{less}
use graybox_core.Text.Laws.{less_irrefl, less_trans, less_total}

abbrev pub In : {A : Type 0} → A → List A → Type 0
In a [] = ⊥
In a (x ∷ xs) = (a ≡ x) ⊎ In a xs

abbrev pub Distinct : {A : Type 0} → List A → Type 0
Distinct [] = Unit
Distinct (x ∷ xs) = (¬ In x xs) × Distinct xs

-- `lt` orders strictly, and any two elements are equal or ordered.
pub record StrictOrder {A : Type 0} (lt : A → A → Bool) : Type 0 where
  pub irrefl : (a : A) → lt a a ≡ false
  pub trans : (a b c : A) → lt a b ≡ true → lt b c ≡ true → lt a c ≡ true
  pub total : (a b : A) → lt a b ≡ false → lt b a ≡ false → a ≡ b

pub less-StrictOrder : StrictOrder less
less-StrictOrder = record { irrefl = less_irrefl; trans = less_trans; total = less_total }

module _ {A : Type 0} (lt : A → A → Bool) where
  abbrev pub Ascending : List A → Type 0
  Ascending [] = Unit
  Ascending (x ∷ xs) = ((a : A) → In a xs → lt x a ≡ true) × Ascending xs

  pub In-insert_by : (a x : A) (ys : List A) → In a (insert_by lt x ys) → (a ≡ x) ⊎ In a ys
  unfolding insert_by
  In-insert_by a x [] h = h
  In-insert_by a x (y ∷ ys) h = elim (Bool-cases (lt y x)) [
    | inl e ↦ elim (rw e at h) [
      | inl p ↦ inr (inl p)
      | inr p ↦ elim (In-insert_by a x ys p) [ inl q ↦ inl q | inr q ↦ inr (inr q) ]
    ]
    | inr e ↦ rw e at h
  ]

  pub insert_by-In : (a x : A) (ys : List A) → (a ≡ x) ⊎ In a ys → In a (insert_by lt x ys)
  unfolding insert_by
  insert_by-In a x [] h = h
  insert_by-In a x (y ∷ ys) h = elim (Bool-cases (lt y x)) [
    | inl e ↦ rw e (elim h [
      | inl p ↦ inr (insert_by-In a x ys (inl p))
      | inr (inl p) ↦ inl p
      | inr (inr p) ↦ inr (insert_by-In a x ys (inr p))
    ])
    | inr e ↦ rw e h
  ]

  pub In-sort_by : (a : A) (xs : List A) → In a (sort_by lt xs) → In a xs
  unfolding sort_by
  In-sort_by a [] h = h
  In-sort_by a (x ∷ xs) h = elim (In-insert_by a x (sort_by lt xs) h) [
    | inl p ↦ inl p
    | inr p ↦ inr (In-sort_by a xs p)
  ]

  pub sort_by-In : (a : A) (xs : List A) → In a xs → In a (sort_by lt xs)
  unfolding sort_by
  sort_by-In a [] h = h
  sort_by-In a (x ∷ xs) (inl p) = insert_by-In a x (sort_by lt xs) (inl p)
  sort_by-In a (x ∷ xs) (inr p) = insert_by-In a x (sort_by lt xs) (inr (sort_by-In a xs p))

module _ {A : Type 0} (lt : A → A → Bool) (o : StrictOrder lt) where
  Ascending-insert_by :
      (x : A) (ys : List A) → ¬ In x ys → Ascending lt ys → Ascending lt (insert_by lt x ys)
  unfolding insert_by
  Ascending-insert_by x [] n h = (λ a k. absurd k, tt)
  Ascending-insert_by x (y ∷ ys) n (first, rest) = elim (Bool-cases (lt y x)) [
    | inl e ↦ rw e (
      λ a k. elim (In-insert_by lt a x ys k) [ inl p ↦ rw p e | inr p ↦ first a p ],
      Ascending-insert_by x ys (λ k. n (inr k)) rest,
    )
    | inr e ↦ rw e (
      λ a k. elim (Bool-cases (lt x y)) [
        | inl f ↦ elim k [ inl p ↦ rw p f | inr p ↦ o.trans x y a f (first a p) ]
        | inr f ↦ absurd (n (inl (o.total x y f e)))
      ],
      (first, rest),
    )
  ]

  pub sort_by-Ascending : (xs : List A) → Distinct xs → Ascending lt (sort_by lt xs)
  unfolding sort_by
  sort_by-Ascending [] h = tt
  sort_by-Ascending (x ∷ xs) (n, h) =
      Ascending-insert_by x (sort_by lt xs) (λ k. n (In-sort_by lt x xs k)) (sort_by-Ascending xs h)

  head-eq :
      (x y : A) (xs ys : List A)
      → Ascending lt (x ∷ xs)
      → Ascending lt (y ∷ ys)
      → In x (y ∷ ys)
      → In y (x ∷ xs)
      → x ≡ y
  head-eq x y xs ys h k (inl p) q = p
  head-eq x y xs ys h k (inr p) (inl q) = sym q
  head-eq x y xs ys h k (inr p) (inr q) =
      ground (arith, o.trans x y x (h.0 y q) (k.0 x p), o.irrefl x)

  tail-In :
      (x : A) (xs ys : List A)
      → Ascending lt (x ∷ xs)
      → ((a : A) → In a (x ∷ xs) → In a (x ∷ ys))
      → (a : A) → In a xs
      → In a ys
  tail-In x xs ys h f a k = elim (f a (inr k)) [
    | inl p ↦ absurd (ground (arith, rw p at (h.0 a k), o.irrefl x))
    | inr p ↦ p
  ]

  -- An ascending list is fixed by its members.
  pub Ascending-ext :
      (xs ys : List A)
      → Ascending lt xs
      → Ascending lt ys
      → ((a : A) → In a xs → In a ys)
      → ((a : A) → In a ys → In a xs)
      → xs ≡ ys
  Ascending-ext [] [] h k f g = refl
  Ascending-ext [] (y ∷ ys) h k f g = absurd (g y (inl refl))
  Ascending-ext (x ∷ xs) [] h k f g = absurd (f x (inl refl))
  Ascending-ext (x ∷ xs) (y ∷ ys) h k f g =
      let e = head-eq x y xs ys h k (f x (inl refl)) (g y (inl refl)) in
      let k' : Ascending lt (x ∷ ys) = rw e k in
      ap₂ ◌∷◌ e (
        Ascending-ext xs ys h.1 k.1 (tail-In x xs ys h (λ a p. rw e (f a p)))
          (tail-In x ys xs k' (λ a p. g a (rw (← e) p))))

  pub sort_by-ext :
      (xs ys : List A)
      → Distinct xs
      → Distinct ys
      → ((a : A) → In a xs → In a ys)
      → ((a : A) → In a ys → In a xs)
      → sort_by lt xs ≡ sort_by lt ys
  sort_by-ext xs ys h k f g =
      Ascending-ext (sort_by lt xs) (sort_by lt ys) (sort_by-Ascending xs h)
        (sort_by-Ascending ys k) (λ a p. sort_by-In lt a ys (f a (In-sort_by lt a xs p)))
        (λ a p. sort_by-In lt a xs (g a (In-sort_by lt a ys p)))
