-- ===== src/Diff/Number/Equality.antt =====
-- `jsonNumbersEqual` decides equality of the decimal numbers that two JSON tokens denote.
use graybox_core.Diff.Number.{
  CanonicalNumber, int_string, normalize_number, canonicalize_json_number, json_numbers_equal,
}
use graybox_core.Diff.Number.Normal.{
  IsCoefficient, NormalForm, zero_number, normalize-cases, int_string-injective, same_canonical_iff,
}
use graybox_core.Diff.Number.Reading.{canonicalize-token}
use graybox_core.Diff.Number.Token.{Token, token_text, IsToken, IsWhole-IsNumeral, power_value}
use graybox_core.Json.Codec.{Codec}
use graybox_core.Prelude.{
  ℕ, zero, suc, ◌+◌, ◌*◌, ◌%◌, ◌^◌, ◌<◌, true, ◌≡◌, ◌≢◌, ◌↔◌, ◌⊎◌, inl, inr, refl, sym, ap, ap₂,
  ◌∙◌, [], ◌∷◌, ◌++◌, arith, length, All, All-append, Bool-cases,
}
use graybox_core.Prelude.Int.{ℤ, pos, pos_part, neg_part, ◌+ℤ◌, ◌-ℤ◌, +ℤ_parts, eq_of_parts}
use graybox_core.Text.Decimal.{IsDigit, value_up, decimal_value, value_up-injective, tens_unique}
use graybox_core.Text.Laws.{equal_iff}
use graybox_core.Text.{Str, equal}
use mathlib.Core.List.{reverse, reverse-reverse}
use mathlib.Core.Option.{some-injective}
use native.Mathlib.Nat.{pow-suc, mul_assoc}

-- The number that a token denotes is its coefficient times a power of ten.
abbrev pub coefficient : Token → ℕ
coefficient t = decimal_value (t.whole ++ t.part)

abbrev pub scale : Token → ℤ
scale t = power_value t.power -ℤ pos (length t.part)

-- The same magnitude, with both sides scaled to natural numbers, and the same sign unless it is zero.
abbrev pub SameNumber : Token → Token → Type 0
SameNumber t u =
    (coefficient t * 10 ^ (pos_part (scale t) + neg_part (scale u))
      ≡ coefficient u * 10 ^ (pos_part (scale u) + neg_part (scale t)))
    × ((coefficient t ≡ 0) ⊎ (t.negative ≡ u.negative))

pow_add : (a b : ℕ) → 10 ^ (a + b) ≡ 10 ^ a * 10 ^ b
pow_add zero b = let e : 0 + b ≡ b = omega arith in rw e (omega arith)
pow_add (suc a) b =
    let e : suc a + b ≡ suc (a + b) = omega arith in
    rw (e, pow-suc, pow-suc) (omega (arith, ap (λ (v : ℕ). v * 10) (pow_add a b)))

abbrev normal : Token → CanonicalNumber
normal t = normalize_number t.negative t.whole t.part (power_value t.power)

pos_pow : (a : ℕ) → 0 < 10 ^ a
pos_pow zero = omega arith
pos_pow (suc a) = omega (arith, pow-suc 10 a, pos_pow a)

scaled : (v x k p : ℕ) → v ≡ x * 10 ^ k → v * 10 ^ p ≡ x * 10 ^ (k + p)
scaled v x k p e = rw (e, pow_add) (mul_assoc x (10 ^ k) (10 ^ p))

-- Sums of scales are equal when their differences are.
exponents_eq :
    (a b : ℤ) (i j : ℕ)
    → a +ℤ pos i ≡ b +ℤ pos j
    → i + (pos_part a + neg_part b) ≡ j + (pos_part b + neg_part a)
exponents_eq a b i j e =
    omega (arith, +ℤ_parts a (pos i), +ℤ_parts b (pos j), ap pos_part e, ap neg_part e)

exponents_unique :
    (a b : ℤ) (i j : ℕ)
    → i + (pos_part a + neg_part b) ≡ j + (pos_part b + neg_part a)
    → a +ℤ pos i ≡ b +ℤ pos j
exponents_unique a b i j e =
    eq_of_parts (a +ℤ pos i) (b +ℤ pos j) (omega (arith, +ℤ_parts a (pos i), +ℤ_parts b (pos j)))

product-zero : (a b : ℕ) → 0 < b → a * b ≡ 0 → a ≡ 0
product-zero zero b h e = refl
product-zero (suc a) b h e = absurd (omega arith)

coefficient-ne-zero : (s : Str) (v k : ℕ) → IsCoefficient s → v ≡ value_up s * 10 ^ k → v ≢ 0
coefficient-ne-zero s v k c e z =
    c.not_tenfold
      (ap (λ (x : ℕ). x % 10) (product-zero (value_up s) (10 ^ k) (pos_pow k) (sym e ∙ z)))

-- The normal form of zero is that of no other number.
zero-no-form : (s : Str) → IsCoefficient s → reverse s ≢ b'0' ∷ []
zero-no-form s c e =
    c.not_tenfold (ap (λ (r : Str). value_up r % 10) (sym (reverse-reverse s) ∙ ap reverse e))

module _ (t u : Token) where
  normal→SameNumber :
      NormalForm t.negative t.whole t.part (power_value t.power)
      → NormalForm u.negative u.whole u.part (power_value u.power)
      → normal t ≡ normal u
      → SameNumber t u
  normal→SameNumber (s, i, c, v, n) (s', j, c', v', n') e =
      let both = sym n ∙ e ∙ n' in
      let digits : s ≡ s' =
        sym (reverse-reverse s)
        ∙ ap (λ (r : CanonicalNumber). reverse r.digits) both
        ∙ reverse-reverse s' in
      let powers = exponents_eq (scale t) (scale u) i j (
        int_string-injective (scale t +ℤ pos i) (scale u +ℤ pos j)
          (ap (λ (r : CanonicalNumber). r.exponent) both)) in
      (
        scaled (coefficient t) (value_up s) i (pos_part (scale t) + neg_part (scale u)) v
            ∙ ap₂ (λ (x y : ℕ). x * 10 ^ y) (ap value_up digits) powers
            ∙ sym (
                scaled (coefficient u) (value_up s') j (pos_part (scale u) + neg_part (scale t))
                  v'),
        inr (ap (λ (r : CanonicalNumber). r.negative) both),
      )

  SameNumber→normal :
      NormalForm t.negative t.whole t.part (power_value t.power)
      → NormalForm u.negative u.whole u.part (power_value u.power)
      → SameNumber t u
      → normal t ≡ normal u
  SameNumber→normal (s, i, c, v, n) (s', j, c', v', n') (m, sign) =
      let (powers, values) =
        tens_unique (i + (pos_part (scale t) + neg_part (scale u)))
          (j + (pos_part (scale u) + neg_part (scale t))) (value_up s) (value_up s') c.not_tenfold
          c'.not_tenfold
          (sym (scaled (coefficient t) (value_up s) i (pos_part (scale t) + neg_part (scale u)) v)
            ∙ m
            ∙ scaled (coefficient u) (value_up s') j (pos_part (scale u) + neg_part (scale t))
                v') in
      let digits = value_up-injective s s' c.digits c'.digits c.trimmed c'.trimmed values in
      let exponents = exponents_unique (scale t) (scale u) i j powers in
      let signs : t.negative ≡ u.negative = elim sign [
        | inl z ↦ absurd (coefficient-ne-zero s (coefficient t) i c v z)
        | inr e ↦ e
      ] in
      n
      ∙ (λ k. record {
        negative = signs k;
        digits = reverse (digits k);
        exponent = int_string (exponents k);
      })
      ∙ sym n'

-- The same as a relation between the normal forms.
All-digits : (t : Token) → IsToken t → All IsDigit (t.whole ++ t.part)
All-digits t h = All-append IsDigit t.whole t.part (IsWhole-IsNumeral t.whole h.whole).0 h.part

normal_iff : (t u : Token) → IsToken t → IsToken u → (normal t ≡ normal u) ↔ SameNumber t u
normal_iff t u h k =
    split (normalize-cases t.negative t.whole t.part (power_value t.power) (All-digits t h))
      (normalize-cases u.negative u.whole u.part (power_value u.power) (All-digits u k))
  where
    split :
        ((coefficient t ≡ 0) × (normal t ≡ zero_number))
          ⊎ NormalForm t.negative t.whole t.part (power_value t.power)
        → ((coefficient u ≡ 0) × (normal u ≡ zero_number))
          ⊎ NormalForm u.negative u.whole u.part (power_value u.power)
        → (normal t ≡ normal u) ↔ SameNumber t u
    split (inl (z, n)) (inl (z', n')) = (λ _. (rw (z, z') (omega arith), inl z), λ _. n ∙ sym n')
    split (inl (z, n)) (inr (s, j, c, v, n')) = (
      λ e.
          absurd (zero-no-form s c (sym (ap (λ (r : CanonicalNumber). r.digits) (sym n ∙ e ∙ n')))),
      λ m. absurd (
          coefficient-ne-zero s (coefficient u) j c v (
            product-zero (coefficient u) (10 ^ (pos_part (scale u) + neg_part (scale t)))
              (pos_pow (pos_part (scale u) + neg_part (scale t))) (sym m.0 ∙ rw z (omega arith)))),
    )
    split (inr (s, i, c, v, n)) (inl (z', n')) = (
      λ e. absurd (zero-no-form s c (ap (λ (r : CanonicalNumber). r.digits) (sym n ∙ e ∙ n'))),
      λ m. absurd (
          coefficient-ne-zero s (coefficient t) i c v (
            product-zero (coefficient t) (10 ^ (pos_part (scale t) + neg_part (scale u)))
              (pos_pow (pos_part (scale t) + neg_part (scale u))) (m.0 ∙ rw z' (omega arith)))),
    )
    split (inr f) (inr f') = (normal→SameNumber t u f f', SameNumber→normal t u f f')

-- Two valid JSON number tokens are reported equal exactly when they denote the same number, whatever
-- their leading and trailing zeros, exponents and signs of zero.
pub json_numbers_equal_iff :
    (json : Codec) (t u : Token)
    → IsToken t
    → IsToken u
    → json.valid (token_text t) ≡ true
    → json.valid (token_text u) ≡ true
    → (json_numbers_equal json (token_text t) (token_text u) ≡ true) ↔ SameNumber t u
unfolding json_numbers_equal
json_numbers_equal_iff json t u h k v w = elim (Bool-cases (equal (token_text t) (token_text u))) [
  | inl e ↦
      let same = canonicalize-token json t h v in
      let texts = (equal_iff (token_text t) (token_text u)).0 e in
      rw e (
        λ _. (normal_iff t u h k).0 (
            some-injective (normal t) (normal u) (
              sym same ∙ ap (canonicalize_json_number json) texts ∙ canonicalize-token json u k w)),
        λ _. refl,
      )
  | inr e ↦
      let both = normal_iff t u h k in
      let test = same_canonical_iff (normal t) (normal u) in
      rw (e, canonicalize-token json t h v, canonicalize-token json u k w)
        (λ m. both.0 (test.0 m), λ m. test.1 (both.1 m))
]
