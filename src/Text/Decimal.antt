-- ===== src/Text/Decimal.antt =====
-- Decimal text: the number that a text of digits stands for, read from its least significant digit,
-- with the effect of zeros at either end, and `strconv.Itoa` as its inverse.
use graybox_core.Prelude.{
  ℕ, zero, suc, ◌+◌, ◌-◌, ◌*◌, ◌/◌, ◌%◌, ◌^◌, ◌<◌, Bool, true, ◌≡◌, ◌≢◌, inl, inr, refl, sym, ap,
  ap₂, ◌∙◌, [], ◌∷◌, ◌++◌, arith, ◌==◌, length, length-append, All, All-append, Bool-cases,
}
use graybox_core.Text.Laws.{trim_left_nil, trim_left_skip, trim_left_stop, length-trim_left}
use graybox_core.Text.{Str, is_digit, trim_left, itoa, digits_up}
use mathlib.Core.List.{reverse, reverse-append, reverse-reverse}
use native.Mathlib.Nat.{pow-suc, mul_assoc}

abbrev pub IsDigit : ℕ → Type 0
IsDigit c = is_digit c ≡ true

-- The number written by these digits, least significant first.
abbrev pub value_up : Str → ℕ
value_up [] = 0
value_up (c ∷ s) = (c - b'0') + 10 * value_up s

abbrev pub decimal_value : Str → ℕ
decimal_value s = value_up (reverse s)

-- No zero at the most significant end of digits that stand least significant first.
abbrev pub Trimmed : Str → Type 0
Trimmed [] = Unit
Trimmed (c ∷ []) = c ≢ b'0'
Trimmed (c ∷ d ∷ s) = Trimmed (d ∷ s)

pub value_up-append : (a b : Str) → value_up (a ++ b) ≡ value_up a + 10 ^ length a * value_up b
value_up-append [] b = omega arith
value_up-append (c ∷ a) b = rw pow-suc (omega (arith, value_up-append a b))

pub reverse-cons : (c : ℕ) (s : Str) → reverse (c ∷ s) ≡ reverse s ++ c ∷ []
reverse-cons c s = reverse-append (c ∷ []) s

pub length-reverse : (s : Str) → length (reverse s) ≡ length s
length-reverse [] = refl
length-reverse (c ∷ s) =
    rw reverse-cons (omega (arith, length-append (reverse s) (c ∷ []), length-reverse s))

pub All-reverse : (P : ℕ → Type 0) (s : Str) → All P s → All P (reverse s)
All-reverse P [] h = tt
All-reverse P (c ∷ s) h =
    rw reverse-cons (All-append P (reverse s) (c ∷ []) (All-reverse P s h.1) (h.0, tt))

abbrev pub is_zero : ℕ → Bool
is_zero c = c == b'0'

zero_digit : (c : ℕ) → is_zero c ≡ true → (n : ℕ) → n * ((c - b'0') + 10 * 0) ≡ 0
zero_digit c e n = let z : c ≡ b'0' = ground arith in rw z (omega arith)

-- Leading zeros do not change the value.
pub trim_left-value : (s : Str) → decimal_value (trim_left is_zero s) ≡ decimal_value s
trim_left-value [] = rw (trim_left_nil is_zero)
trim_left-value (c ∷ s) = elim (Bool-cases (is_zero c)) [
  | inl e ↦ rw (trim_left_skip is_zero c s e) (
      rw reverse-cons (
        trim_left-value s
        ∙ omega (
          arith,
          value_up-append (reverse s) (c ∷ []),
          zero_digit c e (10 ^ length (reverse s)),
        )))
  | inr e ↦ rw (trim_left_stop is_zero c s e)
]

-- Trailing zeros are a power of ten.
pub trim_up-value :
    (s : Str)
    → value_up s ≡ value_up (trim_left is_zero s) * 10 ^ (length s - length (trim_left is_zero s))
trim_up-value [] = rw (trim_left_nil is_zero)
trim_up-value (c ∷ s) = elim (Bool-cases (is_zero c)) [
  | inl e ↦
      let t = trim_left is_zero s in
      let k : suc (length s) - length t ≡ suc (length s - length t) =
        omega (arith, length-trim_left is_zero s) in
      rw (trim_left_skip is_zero c s e) (
        rw (k, pow-suc)
          (omega (
            arith,
            zero_digit c e 1,
            trim_up-value s,
            mul_assoc (value_up t) (10 ^ (length s - length t)) 10,
          )))
  | inr e ↦
      rw (trim_left_stop is_zero c s e)
        (let k : suc (length s) - suc (length s) ≡ 0 = omega arith in rw k (omega arith))
]

pub value_up-pos : (c : ℕ) (s : Str) → All IsDigit (c ∷ s) → Trimmed (c ∷ s) → 0 < value_up (c ∷ s)
value_up-pos c [] h t = ground arith
value_up-pos c (d ∷ s) h t = ground (arith, value_up-pos d s h.1 t)

pub Trimmed-tail : (c : ℕ) (s : Str) → Trimmed (c ∷ s) → Trimmed s
Trimmed-tail c [] t = tt
Trimmed-tail c (d ∷ s) t = t

-- A number has one text with no leading zero.
pub value_up-injective :
    (a b : Str)
    → All IsDigit a
    → All IsDigit b
    → Trimmed a
    → Trimmed b
    → value_up a ≡ value_up b
    → a ≡ b
value_up-injective [] [] h k t u e = refl
value_up-injective [] (d ∷ b) h k t u e = absurd (omega (arith, value_up-pos d b k u))
value_up-injective (c ∷ a) [] h k t u e = absurd (omega (arith, value_up-pos c a h t))
value_up-injective (c ∷ a) (d ∷ b) h k t u e =
    ap₂ ◌∷◌ (ground arith)
      (value_up-injective a b h.1 k.1 (Trimmed-tail c a t) (Trimmed-tail d b u) (ground arith))

-- A power of ten and a factor that ten does not divide are fixed by their product.
pub tens_unique :
    (i j a b : ℕ) → a % 10 ≢ 0 → b % 10 ≢ 0 → a * 10 ^ i ≡ b * 10 ^ j → (i ≡ j) × (a ≡ b)
tens_unique zero zero a b h k e = omega arith
tens_unique zero (suc j) a b h k e =
    absurd (h (omega (arith, ap (λ (t : ℕ). b * t) (pow-suc 10 j))))
tens_unique (suc i) zero a b h k e =
    absurd (k (omega (arith, ap (λ (t : ℕ). a * t) (pow-suc 10 i))))
tens_unique (suc i) (suc j) a b h k e =
    let (p, q) =
      tens_unique i j a b h k (
        omega
          (arith, ap (λ (t : ℕ). a * t) (pow-suc 10 i), ap (λ (t : ℕ). b * t) (pow-suc 10 j))) in
    (ap suc p, q)

-- `itoa` writes digits, and they stand for its argument.
digits_up-value : (fuel n : ℕ) → n < fuel → value_up (digits_up fuel n) ≡ n
unfolding digits_up
digits_up-value zero n h = absurd (omega arith)
digits_up-value (suc fuel) n h = ground (arith, digits_up-value fuel (n / 10))

digits_up-IsDigit : (fuel n : ℕ) → All IsDigit (digits_up fuel n)
unfolding digits_up
digits_up-IsDigit zero n = tt
digits_up-IsDigit (suc fuel) n = ground (arith, digits_up-IsDigit fuel (n / 10))

pub itoa-value : (n : ℕ) → decimal_value (itoa n) ≡ n
unfolding itoa
itoa-value n = rw reverse-reverse (digits_up-value (suc n) n (omega arith))

pub itoa-IsDigit : (n : ℕ) → All IsDigit (itoa n)
unfolding itoa
itoa-IsDigit n = All-reverse IsDigit (digits_up (suc n) n) (digits_up-IsDigit (suc n) n)

pub itoa-injective : (m n : ℕ) → itoa m ≡ itoa n → m ≡ n
itoa-injective m n e = sym (itoa-value m) ∙ ap decimal_value e ∙ itoa-value n
