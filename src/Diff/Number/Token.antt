-- ===== src/Diff/Number/Token.antt =====
-- Number tokens of the JSON grammar, and how `canonicalizeJSONNumber` reads them.
use graybox_core.Diff.Number.{
  decimal_digits, all_digits, read_decimal, read_magnitude, read_int, is_exponent_mark,
}
use graybox_core.Prelude.{
  ℕ, ◌+◌, ◌-◌, ◌*◌, ◌^◌, Bool, true, false, ◌≡◌, ◌≢◌, refl, ◌∙◌, [], ◌∷◌, ◌++◌, Option, none, some,
  arith, if◌then◌else◌, length, All,
}
use graybox_core.Prelude.Int.{ℤ, pos, sub_ℕ}
use graybox_core.Text.Decimal.{
  IsDigit, decimal_value, value_up-append, reverse-cons, length-reverse,
}
use graybox_core.Text.{Str, cut_at}
use native.Mathlib.Nat.{pow-suc}

pub data Sign : Type 0 where
  unsigned plus minus : Sign

pub record Power : Type 0 where
  pub mark : ℕ
  pub sign : Sign
  pub digits : Str

-- `part` is empty where there is no fraction.
pub record Token : Type 0 where
  pub negative : Bool
  pub whole : Str
  pub part : Str
  pub power : Option Power

abbrev pub sign_text : Sign → Str → Str
sign_text unsigned s = s
sign_text plus s = b'+' ∷ s
sign_text minus s = b'-' ∷ s

abbrev pub power_text : Option Power → Str
power_text none = []
power_text (some p) = p.mark ∷ sign_text p.sign p.digits

abbrev pub part_text : Str → Str
part_text [] = []
part_text (c ∷ s) = b'.' ∷ c ∷ s

abbrev pub mantissa_text : Token → Str
mantissa_text t = t.whole ++ part_text t.part

abbrev pub unsigned_text : Token → Str
unsigned_text t = mantissa_text t ++ power_text t.power

abbrev pub token_text : Token → Str
token_text t = if t.negative then b'-' ∷ unsigned_text t else unsigned_text t

abbrev pub IsNumeral : Str → Type 0
IsNumeral s = All IsDigit s × (s ≢ [])

abbrev pub IsPower : Option Power → Type 0
IsPower none = Unit
IsPower (some p) = (is_exponent_mark p.mark ≡ true) × IsNumeral p.digits

-- A numeral with no superfluous leading zero.
abbrev pub IsWhole : Str → Type 0
IsWhole [] = ⊥
IsWhole (c ∷ []) = IsDigit c
IsWhole (c ∷ d ∷ s) = (c ≢ b'0') × All IsDigit (c ∷ d ∷ s)

pub record IsToken (t : Token) : Type 0 where
  pub whole : IsWhole t.whole
  pub part : All IsDigit t.part
  pub power : IsPower t.power

abbrev pub signed_value : Sign → ℕ → ℤ
signed_value minus n = sub_ℕ 0 n
signed_value _ n = pos n

abbrev pub power_value : Option Power → ℤ
power_value none = pos 0
power_value (some p) = signed_value p.sign (decimal_value p.digits)

pub IsWhole-IsNumeral : (s : Str) → IsWhole s → IsNumeral s
IsWhole-IsNumeral [] h = absurd h
IsWhole-IsNumeral (c ∷ []) h = ((h, tt), λ e. cc)
IsWhole-IsNumeral (c ∷ d ∷ s) h = (h.1, λ e. cc)

-- Reading numerals.
read_decimal-value :
    (acc : ℕ) (s : Str) → read_decimal acc s ≡ acc * 10 ^ length s + decimal_value s
unfolding read_decimal
read_decimal-value acc [] = omega arith
read_decimal-value acc (c ∷ s) =
    read_decimal-value (acc * 10 + (c - b'0')) s
    ∙ rw (reverse-cons, pow-suc, value_up-append, length-reverse) (omega arith)

all_digits-true : (s : Str) → All IsDigit s → all_digits s ≡ true
unfolding all_digits
all_digits-true [] h = refl
all_digits-true (c ∷ s) h = ground (arith, all_digits-true s)

pub decimal_digits-true : (s : Str) → IsNumeral s → decimal_digits s ≡ true
unfolding decimal_digits
decimal_digits-true [] h = absurd (h.1 refl)
decimal_digits-true (c ∷ s) h = all_digits-true (c ∷ s) h.0

read_magnitude-value : (s : Str) → IsNumeral s → read_magnitude s ≡ some (decimal_value s)
unfolding read_magnitude
read_magnitude-value s h = rw (decimal_digits-true s h) (ground (arith, read_decimal-value 0 s))

pub read_int-value :
    (g : Sign) (s : Str)
    → IsNumeral s
    → read_int (sign_text g s) ≡ some (signed_value g (decimal_value s))
unfolding read_int
read_int-value plus s h = rw (read_magnitude-value s h)
read_int-value minus s h = rw (read_magnitude-value s h)
read_int-value unsigned [] h = absurd (h.1 refl)
read_int-value unsigned (c ∷ s) h = ground (arith, read_magnitude-value (c ∷ s) h)

-- Cutting.
module _ (p : ℕ → Bool) where
  pub cut_at-none : (s : Str) → All (λ c. p c ≡ false) s → cut_at p s ≡ none
  unfolding cut_at
  cut_at-none [] h = refl
  cut_at-none (c ∷ s) h = rw (h.0, cut_at-none s h.1)

  pub cut_at-some :
      (a : Str) (c : ℕ) (b : Str)
      → All (λ d. p d ≡ false) a
      → p c ≡ true
      → cut_at p (a ++ c ∷ b) ≡ some (a, b)
  unfolding cut_at
  cut_at-some [] c b h e = rw e
  cut_at-some (d ∷ a) c b h e = rw (h.0, cut_at-some a c b h.1 e)
