-- ===== src/Text/Split.antt =====
-- The parts of a text between separators, and a text without the white space around it.
use graybox_core.Prelude.{
  ℕ, Bool, true, false, ◌≡◌, ◌⊎◌, inl, inr, refl, sym, ap, ◌∙◌, List, [], ◌∷◌, ◌++◌, ◌==◌, arith,
  All, Bool-cases,
}
use graybox_core.Sort.Laws.{In}
use graybox_core.Text.Decimal.{All-reverse}
use graybox_core.Text.Laws.{trim_left_skip, trim_left_stop}
use graybox_core.Text.{Str, is_space, trim_left, trim_right, trim_space, split_on}
use mathlib.Core.List.{reverse, reverse-append, reverse-reverse, append_assoc}
use mathlib.Core.Path.{subst}

module _ (b : ℕ) (c : ℕ) (s : Str) where
  pub split_on_here : (c == b) ≡ true → split_on b (c ∷ s) ≡ [] ∷ split_on b s
  unfolding split_on
  split_on_here k = rw (split_on, k)

  pub split_on_later :
      (p : Str) (ps : List Str)
      → (c == b) ≡ false
      → split_on b s ≡ p ∷ ps
      → split_on b (c ∷ s) ≡ (c ∷ p) ∷ ps
  unfolding split_on
  split_on_later p ps k e = rw (split_on, k, e)

pub split_on-cons :
    (b : ℕ) (s : Str) → (part : Str) × (parts : List Str) × (split_on b s ≡ part ∷ parts)
unfolding split_on
split_on-cons b [] = ([], [], refl)
split_on-cons b (c ∷ s) =
    let (p, ps, e) = split_on-cons b s in
    elim (Bool-cases (c == b)) [
      | inl k ↦ ([], split_on b s, split_on_here b c s k)
      | inr k ↦ (c ∷ p, ps, split_on_later b c s p ps k e)
    ]

-- What stands behind a separator is split by itself.
split_on-behind :
    (b : ℕ) (before s : Str)
    → (part : Str) × (parts : List Str) × (split_on b (before ++ b ∷ s) ≡ part ∷ parts)
      × ((x : Str) → In x (split_on b s) → In x parts)
split_on-behind b [] s = ([], split_on b s, split_on_here b b s (ground arith), λ x i. i)
split_on-behind b (c ∷ before) s =
    let (p, ps, e, f) = split_on-behind b before s in
    elim (Bool-cases (c == b)) [
      | inl k ↦ (
        [],
        split_on b (before ++ b ∷ s),
        split_on_here b c (before ++ b ∷ s) k,
        λ x i. subst (λ l. In x l) (sym e) (inr (f x i)),
      )
      | inr k ↦ (c ∷ p, ps, split_on_later b c (before ++ b ∷ s) p ps k e, f)
    ]

-- The end of a text, or a separator with more behind it.
abbrev pub EndsAt : ℕ → Str → Type 0
EndsAt b after = (after ≡ []) ⊎ ((s : Str) × (after ≡ b ∷ s))

-- The start of a text, or a text up to a separator.
abbrev pub StartsAt : ℕ → Str → Type 0
StartsAt b before = (before ≡ []) ⊎ ((s : Str) × (before ≡ s ++ b ∷ []))

split_on_first :
    (b : ℕ) (part after : Str)
    → All (λ c. (c == b) ≡ false) part
    → EndsAt b after
    → (parts : List Str) × (split_on b (part ++ after) ≡ part ∷ parts)
unfolding split_on
split_on_first b [] after h (inl e) = ([], rw e refl)
split_on_first b [] after h (inr (s, e)) = (split_on b s, rw e (split_on_here b b s (ground arith)))
split_on_first b (c ∷ part) after h t =
    let (ps, e) = split_on_first b part after h.1 t in
    (ps, split_on_later b c (part ++ after) part ps h.0 e)

-- A part without a separator, between separators or the ends of the text, is one of those split off.
pub split_on-In :
    (b : ℕ) (before part after : Str)
    → StartsAt b before
    → All (λ c. (c == b) ≡ false) part
    → EndsAt b after
    → In part (split_on b (before ++ (part ++ after)))
split_on-In b before part after (inl e) h t =
    let (ps, k) = split_on_first b part after h t in rw (e, k) (inl refl)
split_on-In b before part after (inr (s, e)) h t =
    let (ps, k) = split_on_first b part after h t in
    let (q, qs, f, g) = split_on-behind b s (part ++ after) in
    rw (e, append_assoc s (b ∷ []) (part ++ after), f) (inr (g part (rw k (inl refl))))

trim_left-All :
    (p : ℕ → Bool) (l s : Str) → All (λ c. p c ≡ true) l → trim_left p (l ++ s) ≡ trim_left p s
trim_left-All p [] s h = refl
trim_left-All p (c ∷ l) s h = trim_left_skip p c (l ++ s) h.0 ∙ trim_left-All p l s h.1

-- White space around a text that neither begins nor ends with it is what `TrimSpace` takes away.
pub trim_space-between :
    (l m r a b : Str) (x y : ℕ)
    → All (λ c. is_space c ≡ true) l
    → All (λ c. is_space c ≡ true) r
    → m ≡ x ∷ a
    → m ≡ b ++ y ∷ []
    → is_space x ≡ false
    → is_space y ≡ false
    → trim_space (l ++ (m ++ r)) ≡ m
unfolding trim_space trim_right
trim_space-between l m r a b x y hl hr e f u v =
    ap (trim_right is_space) left ∙ ap reverse right ∙ reverse-reverse m
  where
    left : trim_left is_space (l ++ (m ++ r)) ≡ m ++ r
    left = trim_left-All is_space l (m ++ r) hl ∙ rw e (trim_left_stop is_space x (a ++ r) u)

    right : trim_left is_space (reverse (m ++ r)) ≡ reverse m
    right = rw (reverse-append m r) (
        trim_left-All is_space (reverse r) (reverse m) (All-reverse (λ c. is_space c ≡ true) r hr)
        ∙ rw (f, reverse-append b (y ∷ [])) (trim_left_stop is_space y (reverse b) v))

-- The last byte of a text, with what holds of all its bytes.
pub last_byte :
    (P : ℕ → Type 0) (c : ℕ) (s : Str)
    → All P (c ∷ s)
    → (b : Str) × (y : ℕ) × (c ∷ s ≡ b ++ y ∷ []) × P y
last_byte P c [] h = ([], c, refl, h.0)
last_byte P c (d ∷ s) h = let (b, y, e, p) = last_byte P d s h.1 in (c ∷ b, y, ap (λ t. c ∷ t) e, p)
