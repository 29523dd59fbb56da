-- ===== src/Text.antt =====
-- Go strings are byte sequences. The parts of the package strings, and of sort, that Graybox uses.
-- Letter case and white space are those of ASCII: on ASCII text they are what Go computes.
pub mod Laws
pub mod Prefix
pub mod Decimal
pub mod Split
use Prim.Native.Char.{code}
use Prim.Native.String.{String}
use graybox_core.Prelude.{
  ℕ, zero, suc, ◌+◌, ◌-◌, ◌/◌, ◌%◌, Bool, true, false, not, ◌&&◌, ◌||◌, List, [], ◌∷◌, ◌++◌, ltb,
  leb, ◌==◌, if◌then◌else◌, length, Option, none, some, ◌>>=◌,
}
use mathlib.Core.List.{reverse}

abbrev pub Str : Type 0
Str = List ℕ

-- The bytes of an ASCII literal.
abbrev pub codes : String → Str
codes String.[] = []
codes (String.◌∷◌ c s) = code c ∷ codes s

-- `a == b` on strings.
unfoldable pub equal : Str → Str → Bool
equal [] [] = true
equal (x ∷ xs) (y ∷ ys) = x == y && equal xs ys
equal _ _ = false

-- `a < b` on strings: bytewise lexicographic order.
unfoldable pub less : Str → Str → Bool
less [] [] = false
less [] (y ∷ ys) = true
less (x ∷ xs) [] = false
less (x ∷ xs) (y ∷ ys) = ltb x y || (x == y && less xs ys)

-- `strings.HasPrefix`
unfoldable pub has_prefix : Str → Str → Bool
has_prefix s [] = true
has_prefix [] (p ∷ ps) = false
has_prefix (c ∷ s) (p ∷ ps) = c == p && has_prefix s ps

-- `strings.HasSuffix`
unfoldable pub has_suffix : Str → Str → Bool
unfolding has_prefix
has_suffix s t = has_prefix (reverse s) (reverse t)

abbrev pub lower_byte : ℕ → ℕ
lower_byte c = if leb b'A' c && leb c b'Z' then c + 32 else c

-- `strings.ToLower`
unfoldable pub to_lower : Str → Str
to_lower [] = []
to_lower (c ∷ s) = lower_byte c ∷ to_lower s

-- `strings.EqualFold`
unfoldable pub equal_fold : Str → Str → Bool
unfolding equal to_lower
equal_fold a b = equal (to_lower a) (to_lower b)

abbrev pub is_space : ℕ → Bool
is_space c = c == b' ' || (leb 9 c && leb c 13)

-- `strings.TrimLeft` with a predicate on the bytes that go.
unfoldable pub trim_left : (ℕ → Bool) → Str → Str
trim_left p [] = []
trim_left p (c ∷ s) = elim (p c) [ true ↦ trim_left p s | false ↦ c ∷ s ]

-- `strings.TrimRight`
unfoldable pub trim_right : (ℕ → Bool) → Str → Str
unfolding trim_left
trim_right p s = reverse (trim_left p (reverse s))

-- `strings.TrimSpace`
unfoldable pub trim_space : Str → Str
unfolding trim_left trim_right
trim_space s = trim_right is_space (trim_left is_space s)

-- `strings.ReplaceAll` for a nonempty `old`: `skip` bytes of a match are still to be passed over.
replace_from : Str → Str → ℕ → Str → Str
unfolding has_prefix
replace_from old new skip [] = []
replace_from old new (suc skip) (c ∷ s) = replace_from old new skip s
replace_from old new zero (c ∷ s) =
    let matched = new ++ replace_from old new (length old - 1) s in
    let kept = c ∷ replace_from old new zero s in if has_prefix (c ∷ s) old then matched else kept

unfoldable pub replace_all : Str → Str → Str → Str
unfolding replace_from
replace_all s old new = replace_from old new zero s

-- The bytes before the first one that `p` accepts, and those behind it: `strings.IndexAny` or
-- `strings.IndexByte` with the two slices that its callers take.
unfoldable pub cut_at : (ℕ → Bool) → Str → Option (Str × Str)
cut_at p [] = none
cut_at p (c ∷ s) =
    let rest = cut_at p s in if p c then some ([], s) else (do (a, b) ← rest; some (c ∷ a, b))

abbrev pub is_digit : ℕ → Bool
is_digit c = leb b'0' c && leb c b'9'

-- The decimal digits of a number, least significant first; `fuel` bounds their count.
digits_up : ℕ → ℕ → Str
digits_up zero n = []
digits_up (suc fuel) n =
    let rest = digits_up fuel (n / 10) in
    if ltb n 10 then (b'0' + n) ∷ [] else (b'0' + n % 10) ∷ rest

-- `strconv.Itoa` of a number that is not negative.
unfoldable pub itoa : ℕ → Str
unfolding digits_up
itoa n = reverse (digits_up (suc n) n)

-- `strings.Split` with a separator of one byte.
unfoldable pub split_on : ℕ → Str → List Str
split_on b [] = [] ∷ []
split_on b (c ∷ s) = elim (c == b) [
  | true ↦ [] ∷ split_on b s
  | false ↦ elim (split_on b s) [ [] ↦ (c ∷ []) ∷ [] | ◌∷◌ part parts ↦ (c ∷ part) ∷ parts ]
]
