-- ===== src/Text/Laws.antt =====
-- Laws of string equality, order and letter case.
use graybox_core.Prelude.{
  ℕ, ◌≤◌, length, All, Bool, true, false, ◌≡◌, ◌↔◌, inl, inr, refl, [], ◌∷◌, ◌++◌, arith, ap₂,
  Bool-cases,
}
use graybox_core.Text.{Str, equal, less, has_prefix, to_lower, trim_left}

pub equal_iff : (a b : Str) → (equal a b ≡ true) ↔ (a ≡ b)
unfolding equal
equal_iff (x ∷ a) (y ∷ b) = ground (arith, equal_iff a b)
equal_iff [] [] = ground arith
equal_iff [] (y ∷ b) = ground arith
equal_iff (x ∷ a) [] = ground arith

pub equal_self : (a : Str) → equal a a ≡ true
equal_self a = (equal_iff a a).1 refl

pub equal_comm : (a b : Str) → equal a b ≡ equal b a
equal_comm a b = ground (arith, equal_iff a b, equal_iff b a)

pub less_irrefl : (a : Str) → less a a ≡ false
unfolding less
less_irrefl [] = refl
less_irrefl (x ∷ a) = ground (arith, less_irrefl a)

pub less_trans : (a b c : Str) → less a b ≡ true → less b c ≡ true → less a c ≡ true
unfolding less
less_trans [] [] c h k = ground arith
less_trans [] (y ∷ b) [] h k = ground arith
less_trans [] (y ∷ b) (z ∷ c) h k = refl
less_trans (x ∷ a) [] c h k = ground arith
less_trans (x ∷ a) (y ∷ b) [] h k = ground arith
less_trans (x ∷ a) (y ∷ b) (z ∷ c) h k = ground (arith, less_trans a b c)

pub less_total : (a b : Str) → less a b ≡ false → less b a ≡ false → a ≡ b
unfolding less
less_total [] [] h k = refl
less_total [] (y ∷ b) h k = ground arith
less_total (x ∷ a) [] h k = ground arith
less_total (x ∷ a) (y ∷ b) h k = ground (arith, less_total a b)

pub less_asymm : (a b : Str) → less a b ≡ true → less b a ≡ false
less_asymm a b h = ground (arith, less_trans a b a, less_irrefl a)

pub has_prefix-append : (p q : Str) → has_prefix (p ++ q) p ≡ true
unfolding has_prefix
has_prefix-append [] q = refl
has_prefix-append (x ∷ p) q = ground (arith, has_prefix-append p q)

pub to_lower_idem : (s : Str) → to_lower (to_lower s) ≡ to_lower s
unfolding to_lower
to_lower_idem [] = refl
to_lower_idem (c ∷ s) = ground (arith, to_lower_idem s)

module _ (p : ℕ → Bool) where
  pub trim_left_nil : trim_left p [] ≡ []
  unfolding trim_left
  trim_left_nil = refl

  pub trim_left_skip : (c : ℕ) (s : Str) → p c ≡ true → trim_left p (c ∷ s) ≡ trim_left p s
  unfolding trim_left
  trim_left_skip c s e = rw (e, trim_left)

  pub trim_left_stop : (c : ℕ) (s : Str) → p c ≡ false → trim_left p (c ∷ s) ≡ c ∷ s
  unfolding trim_left
  trim_left_stop c s e = rw (e, trim_left)

  pub length-trim_left : (s : Str) → length (trim_left p s) ≤ length s
  unfolding trim_left
  length-trim_left [] = omega arith
  length-trim_left (c ∷ s) = ground (arith, length-trim_left s)

  pub All-trim_left : (P : ℕ → Type 0) (s : Str) → All P s → All P (trim_left p s)
  unfolding trim_left
  All-trim_left P [] h = tt
  All-trim_left P (c ∷ s) h = elim (Bool-cases (p c)) [
    | inl e ↦ rw (trim_left_skip c s e) (All-trim_left P s h.1)
    | inr e ↦ rw (trim_left_stop c s e) h
  ]

  -- A text without a byte to trim is left alone.
  pub trim_left_none : (s : Str) → All (λ c. p c ≡ false) s → trim_left p s ≡ s
  unfolding trim_left
  trim_left_none [] h = refl
  trim_left_none (c ∷ s) h = trim_left_stop c s h.0

-- `HasPrefix` holds exactly of the texts that go on from the prefix.
pub has_prefix-rest : (s p : Str) → has_prefix s p ≡ true → (r : Str) × (s ≡ p ++ r)
unfolding has_prefix
has_prefix-rest s [] h = (s, refl)
has_prefix-rest [] (c ∷ p) h = cc
has_prefix-rest (d ∷ s) (c ∷ p) h =
    let (r, e) = has_prefix-rest s p (ground arith) in
    let same : d ≡ c = ground arith in (r, ap₂ ◌∷◌ same e)
