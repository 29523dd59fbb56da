-- ===== src/Cli/Redactor/Encoded.antt =====
-- A string as Go's JSON encoder writes it, and what is taken out between its quotes.
use graybox_core.Cli.Redactor.{Spellings, inner, quoted, json_string_without_html_escaping}
use graybox_core.Failure.{ok}
use graybox_core.Prelude.{
  ℕ, suc, ◌-◌, true, false, ◌≡◌, refl, ◌∙◌, [], ◌∷◌, ◌++◌, arith, length, take, drop, ltb,
  length-append, drop-length-append,
}
use graybox_core.Text.Laws.{equal_self}
use graybox_core.Text.Prefix.{take_all, take-length-append}
use graybox_core.Text.Split.{trim_space-between}
use graybox_core.Text.{Str, trim_space}
use mathlib.Core.List.{append-nil}

-- A text in quotes.
abbrev pub in_quotes : Str → Str
in_quotes s = b'"' ∷ s ++ b'"' ∷ []

length-closed : (s : Str) → length (s ++ b'"' ∷ []) ≡ suc (length s)
length-closed s = omega (arith, length-append s (b'"' ∷ []))

take_front : (n : ℕ) (s t : Str) → n ≡ length s → take n (s ++ t) ≡ s
take_front n s t e =
    take-length-append n s t ∙ rw (take_all n s (omega (arith, e)), none_left) (append-nil s)
  where
    none_left : n - length s ≡ 0
    none_left = omega (arith, e)

drop_front : (n : ℕ) (s t : Str) → n ≡ length s → drop n (s ++ t) ≡ t
drop_front n s t e = rw e (drop-length-append s t)

pub inner-in_quotes : (s : Str) → inner (in_quotes s) ≡ s
inner-in_quotes s = take_front _ s (b'"' ∷ []) (omega (arith, length-closed s))

quoted-in_quotes : (s : Str) → quoted (in_quotes s) ≡ true
quoted-in_quotes s =
    rw (drop_front (length (s ++ b'"' ∷ []) - 1) s (b'"' ∷ []) (omega (arith, length-closed s)))
      (equal_self (b'"' ∷ []))

long : (s : Str) → ltb (length (in_quotes s)) 2 ≡ false
long s = ground (arith, length-closed s)

trim_space-line : (s : Str) → trim_space (in_quotes s ++ 10 ∷ []) ≡ in_quotes s
trim_space-line s =
    trim_space-between [] (in_quotes s) (10 ∷ []) (s ++ b'"' ∷ []) (b'"' ∷ s) b'"' b'"' tt
      (refl, tt) refl refl refl refl

-- A string that the encoder writes in quotes, on a line, is taken out of them.
pub json_string-encode :
    (go : Spellings) (text s : Str)
    → go.encode text ≡ ok (in_quotes s ++ 10 ∷ [])
    → json_string_without_html_escaping go text ≡ ok s
unfolding json_string_without_html_escaping
json_string-encode go text s e =
    rw (e, trim_space-line s, long s, quoted-in_quotes s, inner-in_quotes s) refl
