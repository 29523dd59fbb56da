-- ===== src/Diff/Number/Normal.antt =====
-- What `normalize_number` makes of digits and an exponent: a coefficient that ten does not divide,
-- and the exponent that goes with it.
use graybox_core.Diff.Number.{CanonicalNumber, int_string, normalize_number, same_canonical}
use graybox_core.Prelude.{
  ℕ, suc, ◌-◌, ◌*◌, ◌%◌, ◌^◌, Bool, true, false, ◌≡◌, ◌≢◌, ◌↔◌, ◌⊎◌, inl, inr, refl, sym, ap, ◌∙◌,
  [], ◌∷◌, ◌++◌, arith, length, All, Bool-cases,
}
use graybox_core.Prelude.Int.{ℤ, pos, negsuc, ◌+ℤ◌, ◌-ℤ◌}
use graybox_core.Text.Decimal.{
  IsDigit, is_zero, value_up, decimal_value, Trimmed, trim_left-value, trim_up-value, value_up-pos,
  reverse-cons, length-reverse, All-reverse, itoa-injective, itoa-IsDigit, Trimmed-tail,
}
use graybox_core.Text.Laws.{equal_iff, trim_left_nil, trim_left_skip, trim_left_stop, All-trim_left}
use graybox_core.Text.{Str, trim_left, trim_right, itoa, equal}
use mathlib.Core.List.{reverse, concat-ne-nil}

-- The first byte that is left is not one to trim.
trim_left-head : (s : Str) (c : ℕ) (r : Str) → trim_left is_zero s ≡ c ∷ r → c ≢ b'0'
trim_left-head [] c r e = cc (trim_left_nil is_zero)
trim_left-head (d ∷ s) c r e = elim (Bool-cases (is_zero d)) [
  | inl z ↦ trim_left-head s c r (rw (trim_left_skip is_zero d s z) at e)
  | inr z ↦ (λ q. ground (arith, trim_left_stop is_zero d s z))
]

Trimmed-concat : (s : Str) (c : ℕ) → c ≢ b'0' → Trimmed (s ++ c ∷ [])
Trimmed-concat [] c h = h
Trimmed-concat (d ∷ []) c h = h
Trimmed-concat (d ∷ e ∷ s) c h = Trimmed-concat (e ∷ s) c h

Trimmed-trim_left : (s : Str) → Trimmed s → Trimmed (trim_left is_zero s)
Trimmed-trim_left [] h = rw (trim_left_nil is_zero) tt
Trimmed-trim_left (c ∷ s) h = elim (Bool-cases (is_zero c)) [
  | inl z ↦ rw (trim_left_skip is_zero c s z) (Trimmed-trim_left s (Trimmed-tail c s h))
  | inr z ↦ rw (trim_left_stop is_zero c s z) h
]

-- The digits of a coefficient, least significant first: ten does not divide what they stand for.
pub record IsCoefficient (s : Str) : Type 0 where
  pub digits : All IsDigit s
  pub trimmed : Trimmed s
  pub not_tenfold : value_up s % 10 ≢ 0

last_digit : (c : ℕ) (s : Str) → IsDigit c → c ≢ b'0' → value_up (c ∷ s) % 10 ≢ 0
last_digit c s h n = ground arith

abbrev pub zero_number : CanonicalNumber
zero_number = record { negative = false; digits = b'0' ∷ []; exponent = b'0' ∷ [] }

-- The coefficient and the count of its trailing zeros.
abbrev pub NormalForm : Bool → Str → Str → ℤ → Type 0
NormalForm n w f z =
    (s : Str) × (k : ℕ) × IsCoefficient s
    × (decimal_value (w ++ f) ≡ value_up s * 10 ^ k)
    × (normalize_number n w f z ≡ record {
      negative = n;
      digits = reverse s;
      exponent = int_string (z -ℤ pos (length f) +ℤ pos k);
    })

to_coefficient :
    (s : Str)
    → All IsDigit s
    → Trimmed s
    → value_up s ≢ 0
    → ((c : ℕ) (r : Str) → s ≡ c ∷ r → c ≢ b'0')
    → IsCoefficient s
to_coefficient [] h t ne head = absurd (ne refl)
to_coefficient (c ∷ s) h t ne head = record {
  digits = h;
  trimmed = t;
  not_tenfold = last_digit c s h.0 (head c s refl);
}

-- The digits of a numeral without leading zeros, its trailing zeros cut off.
module _ (c : ℕ) (d : Str) (h : All IsDigit (c ∷ d)) (ne : c ≢ b'0') where
  abbrev stripped : Str
  stripped = trim_left is_zero (reverse (c ∷ d))

  abbrev zeros : ℕ
  zeros = length (c ∷ d) - length (reverse stripped)

  reverse-Trimmed : Trimmed (reverse (c ∷ d))
  reverse-Trimmed = rw reverse-cons (Trimmed-concat (reverse d) c ne)

  decimal-stripped : decimal_value (c ∷ d) ≡ value_up stripped * 10 ^ zeros
  decimal-stripped =
      trim_up-value (reverse (c ∷ d)) ∙ rw (length-reverse (c ∷ d), length-reverse stripped)

  decimal-ne-zero : decimal_value (c ∷ d) ≢ 0
  decimal-ne-zero =
      positive (reverse (c ∷ d)) (All-reverse IsDigit (c ∷ d) h) reverse-Trimmed
        (rw reverse-cons (concat-ne-nil c (reverse d)))
    where
      positive : (s : Str) → All IsDigit s → Trimmed s → s ≢ [] → value_up s ≢ 0
      positive [] a t k = absurd (k refl)
      positive (b ∷ s) a t k = omega (arith, value_up-pos b s a t)

  stripped-IsCoefficient : IsCoefficient stripped
  stripped-IsCoefficient =
      to_coefficient stripped
        (All-trim_left is_zero IsDigit (reverse (c ∷ d)) (All-reverse IsDigit (c ∷ d) h))
        (Trimmed-trim_left (reverse (c ∷ d)) reverse-Trimmed)
        (λ e. decimal-ne-zero (decimal-stripped ∙ ap (λ (v : ℕ). v * 10 ^ zeros) e ∙ omega arith))
        (trim_left-head (reverse (c ∷ d)))

-- Leading zeros cut off, what is left begins with another digit, or nothing is left.
module _ (n : Bool) (w f : Str) (z : ℤ) where
  normalize-zero :
      trim_left is_zero (w ++ f) ≡ []
      → (decimal_value (w ++ f) ≡ 0) × (normalize_number n w f z ≡ zero_number)
  unfolding normalize_number trim_right equal int_string
  normalize-zero e = (sym (trim_left-value (w ++ f)) ∙ rw e, rw e)

  normalize-cons :
      (c : ℕ) (d : Str)
      → trim_left is_zero (w ++ f) ≡ c ∷ d
      → normalize_number n w f z ≡ record {
        negative = n;
        digits = reverse (trim_left is_zero (reverse (c ∷ d)));
        exponent = int_string (
            z
            -ℤ pos (length f)
            +ℤ pos (length (c ∷ d) - length (reverse (trim_left is_zero (reverse (c ∷ d))))));
      }
  unfolding normalize_number trim_right equal
  normalize-cons c d e = rw e

  normalize-NormalForm :
      (c : ℕ) (d : Str)
      → All IsDigit (w ++ f)
      → trim_left is_zero (w ++ f) ≡ c ∷ d
      → NormalForm n w f z
  normalize-NormalForm c d h e =
      let all_digits : All IsDigit (c ∷ d) = rw e at (All-trim_left is_zero IsDigit (w ++ f) h) in
      let ne = trim_left-head (w ++ f) c d e in
      (
        stripped c d all_digits ne,
        zeros c d all_digits ne,
        stripped-IsCoefficient c d all_digits ne,
        sym (trim_left-value (w ++ f)) ∙ ap decimal_value e ∙ decimal-stripped c d all_digits ne,
        normalize-cons c d e,
      )

  -- Zero has one form, and any other number a coefficient with its exponent.
  pub normalize-cases :
      All IsDigit (w ++ f)
      → ((decimal_value (w ++ f) ≡ 0) × (normalize_number n w f z ≡ zero_number))
        ⊎ NormalForm n w f z
  normalize-cases h = split (trim_left is_zero (w ++ f)) refl
    where
      split :
          (d : Str)
          → trim_left is_zero (w ++ f) ≡ d
          → ((decimal_value (w ++ f) ≡ 0) × (normalize_number n w f z ≡ zero_number))
            ⊎ NormalForm n w f z
      split [] e = inl (normalize-zero e)
      split (c ∷ d) e = inr (normalize-NormalForm c d h e)

minus_no_digit : (s r : Str) → All IsDigit s → s ≢ b'-' ∷ r
minus_no_digit [] r h = λ e. cc
minus_no_digit (c ∷ s) r h = λ e. ground arith

-- `big.Int.String` is injective.
pub int_string-injective : (a b : ℤ) → int_string a ≡ int_string b → a ≡ b
unfolding int_string
int_string-injective (pos m) (pos n) e = ap pos (itoa-injective m n e)
int_string-injective (pos m) (negsuc n) e =
    absurd (minus_no_digit (itoa m) (itoa (suc n)) (itoa-IsDigit m) e)
int_string-injective (negsuc m) (pos n) e =
    absurd (minus_no_digit (itoa n) (itoa (suc m)) (itoa-IsDigit n) (sym e))
int_string-injective (negsuc m) (negsuc n) e =
    ap negsuc (omega (arith, itoa-injective (suc m) (suc n) (cc)))

pub same_canonical_iff : (a b : CanonicalNumber) → (same_canonical a b ≡ true) ↔ (a ≡ b)
unfolding same_canonical
same_canonical_iff a b =
    ground (arith, equal_iff a.digits b.digits, equal_iff a.exponent b.exponent)
