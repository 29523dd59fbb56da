-- ===== src/Cli/Config/References.antt =====
-- How a reference to an environment variable is read.
use graybox_core.Cli.Config.{
  Reference, cut_text, contains_any, check_reference, environment_reference,
}
use graybox_core.Cli.SecretHeaders.{valid_environment_variable_name}
use graybox_core.Failure.{ok, Yields, Yields-ok}
use graybox_core.Prelude.{
  ℕ, true, false, ◌≡◌, inl, inr, refl, sym, ap, ◌∙◌, [], ◌∷◌, ◌++◌, Option, none, some, Bool-cases,
  Option-cases, length, drop, drop-length-append,
}
use graybox_core.Text.Laws.{equal_iff, has_prefix-rest}
use graybox_core.Text.{Str, codes, equal, has_prefix}
use mathlib.Core.Path.{subst}

-- The two parts and the separator make up the text.
abbrev Cuts : Str → Str → Option (Str × Str) → Type 0
Cuts sep s none = Unit
Cuts sep s (some (before, after)) = s ≡ before ++ sep ++ after

Cuts-later :
    (sep s : Str) (c : ℕ) (o : Option (Str × Str))
    → Cuts sep s o
    → Cuts sep (c ∷ s) (elim o [ none ↦ none | some (before, after) ↦ some (c ∷ before, after) ])
Cuts-later sep s c none h = tt
Cuts-later sep s c (some (before, after)) h = ap (λ t. c ∷ t) h

cut_text-Cuts : (sep s : Str) → Cuts sep s (cut_text sep s)
unfolding cut_text
cut_text-Cuts sep [] = elim (Bool-cases (equal sep [])) [
  | inl e ↦ rw (cut_text, e, (equal_iff sep []).0 e) refl
  | inr e ↦ rw (cut_text, e) tt
]
cut_text-Cuts sep (c ∷ s) = elim (Bool-cases (has_prefix (c ∷ s) sep)) [
  | inl e ↦
      let (r, p) = has_prefix-rest (c ∷ s) sep e in
      rw (cut_text, e)
        (p ∙ ap (λ t. sep ++ t) (sym (ap (drop (length sep)) p ∙ drop-length-append sep r)))
  | inr e ↦ rw (cut_text, e) (Cuts-later sep s c (cut_text sep s) (cut_text-Cuts sep s))
]

-- The text of a reference, and what its parts are.
abbrev pub IsReference : Str → Reference → Type 0
IsReference expression r =
    (expression ≡ r.prefix ++ codes "${" ++ (r.name ++ codes "}" ++ r.suffix))
    × (valid_environment_variable_name r.name ≡ true)
    × (contains_any (codes "${}") (r.prefix ++ r.suffix) ≡ false)

check_reference-IsReference :
    (expression : Str) (r : Reference)
    → expression ≡ r.prefix ++ codes "${" ++ (r.name ++ codes "}" ++ r.suffix)
    → Yields (IsReference expression) (check_reference r)
unfolding check_reference
check_reference-IsReference expression r e =
    elim (Bool-cases (valid_environment_variable_name r.name)) [
      | inr v ↦ rw (check_reference, v) tt
      | inl v ↦ elim (Bool-cases (contains_any (codes "${}") (r.prefix ++ r.suffix))) [
        | inl k ↦ rw (check_reference, v, k) tt
        | inr k ↦ rw (check_reference, v, k) (e, v, k)
      ]
    ]

environment_reference-Yields :
    (expression : Str) → Yields (IsReference expression) (environment_reference expression)
unfolding environment_reference
environment_reference-Yields expression = elim (Option-cases (cut_text (codes "${") expression)) [
  | inl n ↦ rw (environment_reference, n) tt
  | inr ((prefix, rest), n) ↦ elim (Option-cases (cut_text (codes "}") rest)) [
    | inl m ↦ rw (environment_reference, n, m) tt
    | inr ((name, suffix), m) ↦
        rw (environment_reference, n, m)
          (check_reference-IsReference expression
            (record { prefix = prefix; name = name; suffix = suffix })
            (let p =
                subst (Cuts (codes "${") expression) n (cut_text-Cuts (codes "${") expression) in
              let q = subst (Cuts (codes "}") rest) m (cut_text-Cuts (codes "}") rest) in
              p ∙ ap (λ t. prefix ++ codes "${" ++ t) q))
  ]
]

-- A value that is accepted consists of a prefix, one reference `${NAME}` and a suffix: NAME is a valid name
-- of a variable, and the prefix and the suffix hold none of `$`, `{` and `}`.
pub environment_reference-IsReference :
    (expression : Str) (r : Reference)
    → environment_reference expression ≡ ok r
    → IsReference expression r
environment_reference-IsReference expression r h =
    Yields-ok (IsReference expression) (environment_reference expression) r
      (environment_reference-Yields expression) h
