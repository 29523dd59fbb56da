-- ===== src/Diff/Number.antt =====
-- The number comparison of internal/diff/body.go: `jsonNumbersEqual`, `canonicalizeJSONNumber` and
-- `decimalDigits`. `big.Int` is ℤ, and the decimal text that `big.Int.String` gives.
pub mod Token
pub mod Reading
pub mod Normal
pub mod Equality
use graybox_core.Json.Codec.{Codec}
use graybox_core.Prelude.{
  ℕ, suc, ◌+◌, ◌-◌, ◌*◌, Bool, true, false, not, ◌&&◌, ◌||◌, List, [], ◌∷◌, ◌++◌, Option, none,
  some, ◌==◌, if◌then◌else◌, length, ◌>>=◌, ◌>>◌, guard,
}
use graybox_core.Prelude.Int.{ℤ, pos, negsuc, sub_ℕ, ◌+ℤ◌, ◌-ℤ◌}
use graybox_core.Text.{Str, equal, trim_space, trim_left, trim_right, cut_at, is_digit, itoa}

pub record CanonicalNumber : Type 0 where
  pub negative : Bool
  pub digits : Str
  pub exponent : Str

-- `big.Int.String`
unfoldable pub int_string : ℤ → Str
unfolding itoa
int_string (pos n) = itoa n
int_string (negsuc n) = b'-' ∷ itoa (suc n)

all_digits : Str → Bool
all_digits [] = true
all_digits (c ∷ s) = if is_digit c then all_digits s else false

-- `decimalDigits`
unfoldable pub decimal_digits : Str → Bool
unfolding all_digits
decimal_digits [] = false
decimal_digits (c ∷ s) = all_digits (c ∷ s)

-- The number that a text of digits stands for, with `acc` read before it.
unfoldable pub read_decimal : ℕ → Str → ℕ
read_decimal acc [] = acc
read_decimal acc (c ∷ s) = read_decimal (acc * 10 + (c - b'0')) s

read_magnitude : Str → Option ℕ
unfolding decimal_digits read_decimal
read_magnitude s = if decimal_digits s then some (read_decimal 0 s) else none

-- `big.Int.SetString` in base 10: an optional sign and at least one digit.
unfoldable pub read_int : Str → Option ℤ
unfolding read_magnitude
read_int [] = none
read_int (c ∷ s) =
    if c == b'-'
    then (do n ← read_magnitude s; some (sub_ℕ 0 n))
    else if c == b'+'
    then (do n ← read_magnitude s; some (pos n))
    else (do n ← read_magnitude (c ∷ s); some (pos n))

-- `if raw[0] == '-'`
strip_sign : Str → Option (Bool × Str)
strip_sign [] = none
strip_sign (c ∷ s) =
    if c == b'-' then (if equal s [] then none else some (true, s)) else some (false, c ∷ s)

abbrev pub is_exponent_mark : ℕ → Bool
is_exponent_mark c = c == b'e' || c == b'E'

split_exponent : Str → Option (Str × Str)
unfolding cut_at equal
split_exponent raw = elim (cut_at is_exponent_mark raw) [
  | none ↦ some (raw, b'0' ∷ [])
  | some (mantissa, text) ↦
      if equal mantissa [] || equal text [] then none else some (mantissa, text)
]

split_fraction : Str → Option (Str × Str)
unfolding cut_at equal
split_fraction mantissa = elim (cut_at (λ c. c == b'.') mantissa) [
  | none ↦ some (mantissa, [])
  | some (whole, part) ↦ if equal whole [] || equal part [] then none else some (whole, part)
]

abbrev pub is_zero : ℕ → Bool
is_zero c = c == b'0'

-- From `digits := integerPart + fractionPart` on.
unfoldable pub normalize_number : Bool → Str → Str → ℤ → CanonicalNumber
unfolding trim_left trim_right equal int_string ◌+ℤ◌ ◌-ℤ◌
normalize_number negative whole part exponent =
    let digits = trim_left is_zero (whole ++ part) in
    let trimmed = trim_right is_zero digits in
    if equal digits []
    then record { negative = false; digits = b'0' ∷ []; exponent = b'0' ∷ [] }
    else record {
      negative = negative;
      digits = trimmed;
      exponent = int_string (exponent -ℤ pos (length part) +ℤ pos (length digits - length trimmed));
    }

-- `==` on `canonicalJSONNumber`
unfoldable pub same_canonical : CanonicalNumber → CanonicalNumber → Bool
unfolding equal
same_canonical a b =
    (if a.negative then b.negative else not b.negative)
    && equal a.digits b.digits
    && equal a.exponent b.exponent

module _ (json : Codec) where
  -- `canonicalizeJSONNumber`
  unfoldable pub canonicalize_json_number : Str → Option CanonicalNumber
  unfolding equal trim_space strip_sign split_exponent read_int split_fraction decimal_digits
      normalize_number
  canonicalize_json_number raw = do
    guard (not (equal raw [] || not (equal (trim_space raw) raw) || not (json.valid raw)))
    (negative, unsigned) ← strip_sign raw
    (mantissa, exponent_text) ← split_exponent unsigned
    exponent ← read_int exponent_text
    (whole, part) ← split_fraction mantissa
    guard (decimal_digits whole && (equal part [] || decimal_digits part))
    some (normalize_number negative whole part exponent)

  -- `jsonNumbersEqual`
  unfoldable pub json_numbers_equal : Str → Str → Bool
  unfolding equal canonicalize_json_number same_canonical
  json_numbers_equal baseline current =
      if equal baseline current then true else elim (canonicalize_json_number baseline) [
        | none ↦ equal baseline current
        | some a ↦ elim (canonicalize_json_number current) [
          | none ↦ equal baseline current
          | some b ↦ same_canonical a b
        ]
      ]
