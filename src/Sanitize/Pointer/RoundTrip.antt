-- ===== src/Sanitize/Pointer/RoundTrip.antt =====
-- The pointers that the diff builds with `AppendJSONPointer` are read back by `Pointer`.
use graybox_core.Diff.Location.Ignore.{append_json_pointer-eq}
use graybox_core.Diff.Location.{escape_token, append_json_pointer}
use graybox_core.Failure.{ok}
use graybox_core.Prelude.{
  ℕ, true, false, ◌≡◌, refl, ◌∙◌, inl, inr, List, [], ◌∷◌, ◌++◌, ◌==◌, if◌then◌else◌, arith,
  Bool-cases, concat_map,
}
use graybox_core.Sanitize.Pointer.{valid_escapes, unescape, unescape_parts, pointer}
use graybox_core.Text.{Str, replace_all, split_on}
use mathlib.Core.List.{foldl, append_assoc}

-- One byte of a token in a pointer.
abbrev pub escape_byte : ℕ → Str
escape_byte c =
    if c == b'~' then b'~' ∷ b'0' ∷ [] else if c == b'/' then b'~' ∷ b'1' ∷ [] else c ∷ []

abbrev pub escaped : Str → Str
escaped s = concat_map escape_byte s

pub escape_token-escaped : (s : Str) → escape_token s ≡ escaped s
unfolding escape_token replace_all
escape_token-escaped [] = refl
escape_token-escaped (c ∷ s) = ground (arith, escape_token-escaped s)

-- Between the two replacements of `unescape` slashes are themselves again.
abbrev half_byte : ℕ → Str
half_byte c = if c == b'~' then b'~' ∷ b'0' ∷ [] else c ∷ []

unescape_slashes :
    (s : Str) → replace_all (escaped s) (b'~' ∷ b'1' ∷ []) (b'/' ∷ []) ≡ concat_map half_byte s
unfolding replace_all
unescape_slashes [] = refl
unescape_slashes (c ∷ s) = ground (arith, unescape_slashes s)

unescape_tildes :
    (s : Str) → replace_all (concat_map half_byte s) (b'~' ∷ b'0' ∷ []) (b'~' ∷ []) ≡ s
unfolding replace_all
unescape_tildes [] = refl
unescape_tildes (c ∷ s) = ground (arith, unescape_tildes s)

unescape-escaped : (s : Str) → unescape (escaped s) ≡ s
unfolding unescape
unescape-escaped s = rw (unescape_slashes s) (unescape_tildes s)

valid_escapes_nil : valid_escapes [] ≡ true
unfolding valid_escapes
valid_escapes_nil = refl

valid_escapes_pair : (s : Str) → valid_escapes (b'~' ∷ b'0' ∷ s) ≡ valid_escapes s
unfolding valid_escapes
valid_escapes_pair s = refl

valid_escapes_slash : (s : Str) → valid_escapes (b'~' ∷ b'1' ∷ s) ≡ valid_escapes s
unfolding valid_escapes
valid_escapes_slash s = refl

valid_escapes_plain :
    (c : ℕ) (s : Str) → (c == b'~') ≡ false → valid_escapes (c ∷ s) ≡ valid_escapes s
unfolding valid_escapes
valid_escapes_plain c [] e = rw e
valid_escapes_plain c (d ∷ s) e = rw (e, valid_escapes)

valid_escapes-escaped : (s : Str) → valid_escapes (escaped s) ≡ true
valid_escapes-escaped [] = valid_escapes_nil
valid_escapes-escaped (c ∷ s) = elim (Bool-cases (c == b'~')) [
  | inl e ↦ rw e (valid_escapes_pair (escaped s) ∙ valid_escapes-escaped s)
  | inr e ↦ elim (Bool-cases (c == b'/')) [
    | inl f ↦ rw (e, f) (valid_escapes_slash (escaped s) ∙ valid_escapes-escaped s)
    | inr f ↦ rw (e, f) (valid_escapes_plain c (escaped s) e ∙ valid_escapes-escaped s)
  ]
]

split_on-escaped :
    (s rest : Str) → split_on b'/' (escaped s ++ b'/' ∷ rest) ≡ escaped s ∷ split_on b'/' rest
unfolding split_on
split_on-escaped [] rest = refl
split_on-escaped (c ∷ s) rest = ground (arith, split_on-escaped s rest)

split_on_last : (s : Str) → split_on b'/' (escaped s) ≡ escaped s ∷ []
unfolding split_on
split_on_last [] = refl
split_on_last (c ∷ s) = ground (arith, split_on_last s)

-- The path behind its first slash, for a first token and those behind it.
abbrev path_from : Str → List Str → Str
path_from t [] = escaped t
path_from t (u ∷ ts) = escaped t ++ b'/' ∷ path_from u ts

unescape_parts-path :
    (t : Str) (ts : List Str) → unescape_parts (split_on b'/' (path_from t ts)) ≡ ok (t ∷ ts)
unfolding unescape_parts
unescape_parts-path t [] = rw (split_on_last t, valid_escapes-escaped t, unescape-escaped t)
unescape_parts-path t (u ∷ ts) = rw (
  split_on-escaped t (path_from u ts),
  valid_escapes-escaped t,
  unescape-escaped t,
  unescape_parts-path u ts,
)

foldl-pointer :
    (p t : Str) (ts : List Str)
    → foldl append_json_pointer (append_json_pointer p t) ts ≡ p ++ b'/' ∷ path_from t ts
foldl-pointer p t [] = append_json_pointer-eq p t ∙ rw (escape_token-escaped t)
foldl-pointer p t (u ∷ ts) =
    foldl-pointer (append_json_pointer p t) u ts
    ∙ rw (append_json_pointer-eq p t, escape_token-escaped t)
        (append_assoc p (b'/' ∷ escaped t) (b'/' ∷ path_from u ts))

-- `Pointer` reads back the tokens of every pointer that `AppendJSONPointer` builds from the root,
-- whatever bytes the tokens hold.
pub pointer-append_json_pointer :
    (t : Str) (ts : List Str) → pointer (foldl append_json_pointer [] (t ∷ ts)) ≡ ok (t ∷ ts)
unfolding pointer
pointer-append_json_pointer t ts = rw (foldl-pointer [] t ts) (unescape_parts-path t ts)
