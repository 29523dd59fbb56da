-- ===== src/Diff/Number/Reading.antt =====
-- `canonicalizeJSONNumber` reads every number token of the JSON grammar into its parts.
use graybox_core.Diff.Number.{
  decimal_digits, read_int, strip_sign, is_exponent_mark, split_exponent, split_fraction,
  normalize_number, canonicalize_json_number,
}
use graybox_core.Diff.Number.Token.{
  Sign, unsigned, plus, minus, Power, Token, sign_text, power_text, part_text, mantissa_text,
  unsigned_text, token_text, IsNumeral, IsPower, IsToken, power_value, IsWhole-IsNumeral,
  decimal_digits-true, read_int-value, cut_at-none, cut_at-some,
}
use graybox_core.Json.Codec.{Codec}
use graybox_core.Prelude.{
  ℕ, true, false, ◌||◌, ◌≡◌, ◌≢◌, inl, inr, refl, [], ◌∷◌, ◌++◌, Option, none, some, arith, ◌==◌,
  All, All-append, Bool-cases,
}
use graybox_core.Text.Decimal.{IsDigit, All-reverse}
use graybox_core.Text.Laws.{trim_left_none, equal_self}
use graybox_core.Text.{Str, is_space, trim_space, trim_right, equal}
use mathlib.Core.List.{reverse, reverse-reverse, append-nil}

pub All-mono : (P Q : ℕ → Type 0) (s : Str) → ((c : ℕ) → P c → Q c) → All P s → All Q s
All-mono P Q [] f h = tt
All-mono P Q (c ∷ s) f h = (f c h.0, All-mono P Q s f h.1)

abbrev IsSolid : ℕ → Type 0
IsSolid c = is_space c ≡ false

trim_space_none : (s : Str) → All IsSolid s → trim_space s ≡ s
unfolding trim_space trim_right
trim_space_none s h =
    rw (trim_left_none is_space s h, trim_left_none is_space (reverse s) (All-reverse IsSolid s h))
      (reverse-reverse s)

digits-IsSolid : (s : Str) → All IsDigit s → All IsSolid s
digits-IsSolid s h = All-mono IsDigit IsSolid s (λ c d. ground arith) h

power_text-IsSolid : (o : Option Power) → IsPower o → All IsSolid (power_text o)
power_text-IsSolid none h = tt
power_text-IsSolid (some p) h = (ground arith, signed p.sign)
  where
    signed : (g : Sign) → All IsSolid (sign_text g p.digits)
    signed unsigned = digits-IsSolid p.digits h.1.0
    signed plus = (refl, digits-IsSolid p.digits h.1.0)
    signed minus = (refl, digits-IsSolid p.digits h.1.0)

part_text-IsSolid : (s : Str) → All IsDigit s → All IsSolid (part_text s)
part_text-IsSolid [] h = tt
part_text-IsSolid (c ∷ s) h = (refl, digits-IsSolid (c ∷ s) h)

module _ (t : Token) (h : IsToken t) where
  whole-IsNumeral : IsNumeral t.whole
  whole-IsNumeral = IsWhole-IsNumeral t.whole h.whole

  unsigned_text-IsSolid : All IsSolid (unsigned_text t)
  unsigned_text-IsSolid =
      All-append IsSolid (mantissa_text t) (power_text t.power)
        (All-append IsSolid t.whole (part_text t.part) (digits-IsSolid t.whole whole-IsNumeral.0)
          (part_text-IsSolid t.part h.part))
        (power_text-IsSolid t.power h.power)

equal-nil : (s : Str) → s ≢ [] → equal s [] ≡ false
unfolding equal
equal-nil [] h = absurd (h refl)
equal-nil (c ∷ s) h = refl

append-ne-nil : (s r : Str) → s ≢ [] → s ++ r ≢ []
append-ne-nil [] r h = absurd (h refl)
append-ne-nil (c ∷ s) r h = λ e. cc

-- The sign is taken off.
strip_sign_digit :
    (s p q : Str) → IsNumeral s → strip_sign ((s ++ p) ++ q) ≡ some (false, (s ++ p) ++ q)
unfolding strip_sign
strip_sign_digit [] p q h = absurd (h.1 refl)
strip_sign_digit (c ∷ s) p q h = ground arith

strip_sign_minus :
    (s p q : Str) → IsNumeral s → strip_sign (b'-' ∷ ((s ++ p) ++ q)) ≡ some (true, (s ++ p) ++ q)
unfolding strip_sign equal
strip_sign_minus [] p q h = absurd (h.1 refl)
strip_sign_minus (c ∷ s) p q h = refl

strip_sign-token :
    (t : Token) → IsToken t → strip_sign (token_text t) ≡ some (t.negative, unsigned_text t)
strip_sign-token t h = elim (Bool-cases t.negative) [
  | inl e ↦
      rw e (strip_sign_minus t.whole (part_text t.part) (power_text t.power) (whole-IsNumeral t h))
  | inr e ↦
      rw e (strip_sign_digit t.whole (part_text t.part) (power_text t.power) (whole-IsNumeral t h))
]

-- The exponent is cut off.
abbrev exponent_text : Option Power → Str
exponent_text none = b'0' ∷ []
exponent_text (some p) = sign_text p.sign p.digits

sign_text-ne-nil : (g : Sign) (s : Str) → s ≢ [] → sign_text g s ≢ []
sign_text-ne-nil unsigned s h = h
sign_text-ne-nil plus s h = λ e. cc
sign_text-ne-nil minus s h = λ e. cc

split_exponent-power :
    (m : Str) (o : Option Power)
    → All (λ c. is_exponent_mark c ≡ false) m
    → m ≢ []
    → IsPower o
    → split_exponent (m ++ power_text o) ≡ some (m, exponent_text o)
unfolding split_exponent
split_exponent-power m none free ne h =
    rw (append-nil m) (rw (cut_at-none is_exponent_mark m free, split_exponent))
split_exponent-power m (some p) free ne h = rw (
  cut_at-some is_exponent_mark m p.mark (sign_text p.sign p.digits) free h.0,
  equal-nil m ne,
  equal-nil (sign_text p.sign p.digits) (sign_text-ne-nil p.sign p.digits h.1.1),
  split_exponent,
)

read_int-exponent :
    (o : Option Power) → IsPower o → read_int (exponent_text o) ≡ some (power_value o)
read_int-exponent none h = read_int-value unsigned (b'0' ∷ []) ((refl, tt), λ e. cc)
read_int-exponent (some p) h = read_int-value p.sign p.digits h.1

-- The fraction is cut off.
split_fraction-part :
    (w p : Str) → IsNumeral w → All IsDigit p → split_fraction (w ++ part_text p) ≡ some (w, p)
unfolding split_fraction equal
split_fraction-part w [] h k = rw (append-nil w) (
    rw (
      cut_at-none (λ c. c == b'.') w (All-mono IsDigit _ w (λ c d. ground arith) h.0),
      split_fraction,
    ))
split_fraction-part w (c ∷ p) h k = rw (
  cut_at-some (λ c. c == b'.') w b'.' (c ∷ p) (All-mono IsDigit _ w (λ c d. ground arith) h.0) refl,
  equal-nil w h.1,
  split_fraction,
  equal,
)

mantissa-unmarked :
    (w p : Str)
    → All IsDigit w
    → All IsDigit p
    → All (λ c. is_exponent_mark c ≡ false) (w ++ part_text p)
mantissa-unmarked w [] h k = rw (append-nil w) (All-mono IsDigit _ w (λ c d. ground arith) h)
mantissa-unmarked w (c ∷ p) h k =
    All-append (λ c. is_exponent_mark c ≡ false) w (b'.' ∷ c ∷ p)
      (All-mono IsDigit _ w (λ c d. ground arith) h)
      (refl, All-mono IsDigit _ (c ∷ p) (λ c d. ground arith) k)

part-checked : (p : Str) → All IsDigit p → (equal p [] || decimal_digits p) ≡ true
unfolding equal
part-checked [] k = refl
part-checked (c ∷ p) k = decimal_digits-true (c ∷ p) (k, λ e. cc)

token_text-IsSolid : (t : Token) → IsToken t → All IsSolid (token_text t)
token_text-IsSolid t h = elim (Bool-cases t.negative) [
  | inl e ↦ rw e (refl, unsigned_text-IsSolid t h)
  | inr e ↦ rw e (unsigned_text-IsSolid t h)
]

token_text-ne-nil : (t : Token) → IsToken t → token_text t ≢ []
token_text-ne-nil t h = elim (Bool-cases t.negative) [
  | inl e ↦ rw e (λ k. cc)
  | inr e ↦ rw e (
      append-ne-nil (mantissa_text t) (power_text t.power)
        (append-ne-nil t.whole (part_text t.part) (whole-IsNumeral t h).1))
]

-- A valid token is read as its sign, digits and exponent.
pub canonicalize-token :
    (json : Codec) (t : Token)
    → IsToken t
    → json.valid (token_text t) ≡ true
    → canonicalize_json_number json (token_text t)
      ≡ some (normalize_number t.negative t.whole t.part (power_value t.power))
unfolding canonicalize_json_number
canonicalize-token json t h v = rw (
  equal-nil (token_text t) (token_text-ne-nil t h),
  trim_space_none (token_text t) (token_text-IsSolid t h),
  equal_self (token_text t),
  v,
  strip_sign-token t h,
  split_exponent-power (mantissa_text t) t.power
      (mantissa-unmarked t.whole t.part (whole-IsNumeral t h).0 h.part)
      (append-ne-nil t.whole (part_text t.part) (whole-IsNumeral t h).1) h.power,
  read_int-exponent t.power h.power,
  split_fraction-part t.whole t.part (whole-IsNumeral t h) h.part,
  decimal_digits-true t.whole (whole-IsNumeral t h),
  part-checked t.part h.part,
)
