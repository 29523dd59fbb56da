-- ===== src/Text/Prefix.antt =====
-- The first bytes of a text that grows, as a capture with a limit keeps them.
use graybox_core.Prelude.{
  ℕ, zero, suc, ◌-◌, ◌≤◌, ◌≡◌, [], ◌∷◌, ◌++◌, ltb, if◌then◌else◌, length, take, arith, refl, ap,
  ap₂, ◌∙◌, sym,
}
use graybox_core.Text.{Str}
use mathlib.Core.List.{append-nil}

pub take_nil : (n : ℕ) → take {A = ℕ} n [] ≡ []
take_nil zero = refl
take_nil (suc n) = refl

zero_sub : (n : ℕ) → 0 - n ≡ 0
zero_sub n = omega arith

sub_zero : (n : ℕ) → n - 0 ≡ n
sub_zero n = omega arith

suc_sub : (m n : ℕ) → suc m - suc n ≡ m - n
suc_sub m n = omega arith

pub take-length-append : (n : ℕ) (s t : Str) → take n (s ++ t) ≡ take n s ++ take (n - length s) t
take-length-append zero s t = rw (zero_sub (length s)) refl
take-length-append (suc n) [] t = rw (sub_zero (suc n)) refl
take-length-append (suc n) (c ∷ s) t =
    ap (◌∷◌ c) (take-length-append n s t ∙ rw (suc_sub n (length s)) refl)

pub take_all : (n : ℕ) (s : Str) → length s ≤ n → take n s ≡ s
take_all zero [] h = refl
take_all zero (c ∷ s) h = ground arith
take_all (suc n) [] h = refl
take_all (suc n) (c ∷ s) h = ap (◌∷◌ c) (take_all n s (omega arith))

pub length-take : (n : ℕ) (s : Str) → length (take n s) ≡ (if ltb n (length s) then n else length s)
length-take zero [] = ground arith
length-take zero (c ∷ s) = ground arith
length-take (suc n) [] = ground arith
length-take (suc n) (c ∷ s) = ground (arith, length-take n s)

-- The part of a chunk that still fits, as the code appends it.
pub fitting :
    (n : ℕ) (s chunk : Str)
    → (if ltb 0 n then s ++ (if ltb n (length chunk) then take n chunk else chunk) else s)
      ≡ s ++ take n chunk
fitting zero s chunk = ground (arith, append-nil s)
fitting (suc n) s chunk = ground (arith, take_all (suc n) chunk)

-- A body that holds the first bytes of `seen`, with the part of the next chunk that still fits.
pub take_grows :
    (n : ℕ) (seen chunk body : Str) (limit : ℕ)
    → body ≡ take n seen
    → limit ≡ n
    → body ++ take (limit - length body) chunk ≡ take n (seen ++ chunk)
take_grows n seen chunk body limit h l =
    ap₂ (λ s m. s ++ take m chunk) h remaining ∙ sym (take-length-append n seen chunk)
  where
    remaining : limit - length body ≡ n - length seen
    remaining = ground (arith, l, ap length h, length-take n seen)
