-- ===== src/Cli/Ignore/Pointers.antt =====
-- Which JSON Pointers a diff can ignore, against those that a redaction rule can name.
use graybox_core.Cli.Ignore.{valid_tildes, valid_json_pointer}
use graybox_core.Failure.{ok, Result-cases}
use graybox_core.Prelude.{
  ℕ, Bool, true, false, ◌&&◌, ◌||◌, ◌≡◌, ◌↔◌, inl, inr, refl, List, [], ◌∷◌, arith, ◌==◌,
  Bool-cases, if◌then◌else◌,
}
use graybox_core.Sanitize.Pointer.{valid_escapes, unescape, unescape_parts, pointer}
use graybox_core.Text.Split.{split_on_here, split_on_later, split_on-cons}
use graybox_core.Text.{Str, split_on}

abbrev all_valid : List Str → Bool
all_valid [] = true
all_valid (part ∷ parts) = valid_escapes part && all_valid parts

unescape_parts_iff :
    (parts : List Str)
    → (all_valid parts ≡ true) ↔ ((tokens : List Str) × (unescape_parts parts ≡ ok tokens))
unfolding unescape_parts
unescape_parts_iff [] = (λ _. ([], refl), λ _. refl)
unescape_parts_iff (part ∷ parts) = elim (Bool-cases (valid_escapes part)) [
  | inr e ↦ rw e (λ h. cc, λ h. let (t, p) = h in cc)
  | inl e ↦ rw e (
    λ h. let (t, p) = (unescape_parts_iff parts).0 h in (unescape part ∷ t, rw p),
    λ h. elim (Result-cases (unescape_parts parts)) [
      | inl (t, p) ↦ (unescape_parts_iff parts).1 (t, p)
      | inr (x, p) ↦ let (t, q) = h in cc (rw p at q)
    ],
  )
]

module _ (c : ℕ) where
  valid_escapes_plain : (s : Str) → (c == b'~') ≡ false → valid_escapes (c ∷ s) ≡ valid_escapes s
  unfolding valid_escapes
  valid_escapes_plain [] e = ground arith
  valid_escapes_plain (d ∷ s) e = rw (valid_escapes, e)

  valid_escapes_last : (c == b'~') ≡ true → valid_escapes (c ∷ []) ≡ false
  unfolding valid_escapes
  valid_escapes_last e = ground arith

  valid_tildes_plain : (s : Str) → (c == b'~') ≡ false → valid_tildes (c ∷ s) ≡ valid_tildes s
  unfolding valid_tildes
  valid_tildes_plain [] e = ground arith
  valid_tildes_plain (d ∷ s) e = rw (valid_tildes, e)

  -- Behind a `~` stands one of two digits.
  valid_escapes_tilde :
      (d : ℕ) (s : Str)
      → (c == b'~') ≡ true
      → valid_escapes (c ∷ d ∷ s) ≡ (if d == b'0' || d == b'1' then valid_escapes s else false)
  unfolding valid_escapes
  valid_escapes_tilde d s e = rw (valid_escapes, e)

  valid_tildes_tilde :
      (d : ℕ) (s : Str)
      → (c == b'~') ≡ true
      → valid_tildes (c ∷ d ∷ s) ≡ (if d == b'0' || d == b'1' then valid_tildes s else false)
  unfolding valid_tildes
  valid_tildes_tilde d s e = rw (valid_tildes, e) (ground arith)

-- A `~` and the byte behind it, in the first part or at its end.
tilde_split :
    (c d : ℕ) (s p : Str) (ps : List Str)
    → (c == b'~') ≡ true
    → split_on b'/' s ≡ p ∷ ps
    → (valid_escapes p && all_valid ps) ≡ valid_tildes s
    → all_valid (split_on b'/' (c ∷ d ∷ s)) ≡ valid_tildes (c ∷ d ∷ s)
tilde_split c d s p ps t e one =
    let k : (c == b'/') ≡ false = ground arith in
    elim (Bool-cases (d == b'/')) [
      | inl g ↦
          rw
            (
              split_on_later b'/' c (d ∷ s) [] (split_on b'/' s) k (split_on_here b'/' d s g),
              valid_tildes_tilde c d s t,
            )
            (rw (valid_escapes_last c t) (ground arith))
      | inr g ↦
          rw
            (
              split_on_later b'/' c (d ∷ s) (d ∷ p) ps k (split_on_later b'/' d s p ps g e),
              valid_tildes_tilde c d s t,
              valid_escapes_tilde c d p t,
            )
            (ground arith)
    ]

valid_tildes-split : (s : Str) → all_valid (split_on b'/' s) ≡ valid_tildes s
unfolding split_on valid_tildes valid_escapes
valid_tildes-split [] = refl
valid_tildes-split (c ∷ []) = ground arith
valid_tildes-split (c ∷ d ∷ s) =
    let (p, ps, e) = split_on-cons b'/' s in
    let (q, qs, f) = split_on-cons b'/' (d ∷ s) in
    let one = valid_tildes-split s in
    let two = valid_tildes-split (d ∷ s) in
    elim (Bool-cases (c == b'/')) [
      | inl k ↦ rw (split_on_here b'/' c (d ∷ s) k, valid_tildes_plain c (d ∷ s) (ground arith)) two
      | inr k ↦ elim (Bool-cases (c == b'~')) [
        | inr t ↦
            rw
              (
                split_on_later b'/' c (d ∷ s) q qs k f,
                valid_escapes_plain c q t,
                valid_tildes_plain c (d ∷ s) t,
              )
              (rw f at two)
        | inl t ↦ tilde_split c d s p ps t e (rw e at one)
      ]
    ]

-- A diff accepts a pointer behind `response.body#` exactly if a redaction rule may name it.
pub valid_json_pointer_iff :
    (p : Str) → (valid_json_pointer p ≡ true) ↔ ((tokens : List Str) × (pointer p ≡ ok tokens))
unfolding valid_json_pointer pointer
valid_json_pointer_iff [] = (λ h. cc, λ h. cc h.1)
valid_json_pointer_iff (c ∷ path) = elim (Bool-cases (c == b'/')) [
  | inl k ↦
      rw (k, valid_tildes_plain c path (ground arith), ← valid_tildes-split path)
        (unescape_parts_iff (split_on b'/' path))
  | inr k ↦ rw k (λ h. cc, λ h. cc h.1)
]
