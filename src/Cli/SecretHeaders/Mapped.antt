-- ===== src/Cli/SecretHeaders/Mapped.antt =====
-- Which headers --secret-header sets.
use graybox_core.Cli.SecretHeaders.{
  http_token_byte, all_token_bytes, valid_http_header_name, valid_environment_variable_name,
  unsupported_secret_header, SecretHeaderMapping, check_mapping, parse_mapping, parse_mappings,
  parse_secret_header_mappings,
}
use graybox_core.Dict.Laws.{In→contains}
use graybox_core.Failure.{ok, Yields, Yields-bind, Yields-ok}
use graybox_core.Prelude.{
  ℕ, Bool, true, false, ◌≡◌, inl, inr, refl, List, [], ◌∷◌, arith, length, All, map, ◌==◌,
  Option-cases, either_branch,
}
use graybox_core.Replay.Headers.{upper_byte, canonical, canonical_from}
use graybox_core.Sort.Laws.{In, Distinct}
use mathlib.Core.Path.{subst}
use graybox_core.Text.{Str, equal, to_lower, lower_byte, trim_space, cut_at}

upper_byte-token : (c : ℕ) → http_token_byte c ≡ true → http_token_byte (upper_byte c) ≡ true
unfolding http_token_byte
upper_byte-token c h = ground arith

lower_byte-token : (c : ℕ) → http_token_byte c ≡ true → http_token_byte (lower_byte c) ≡ true
unfolding http_token_byte
lower_byte-token c h = ground arith

canonical_from-token :
    (upper : Bool) (s : Str)
    → all_token_bytes s ≡ true
    → all_token_bytes (canonical_from upper s) ≡ true
unfolding all_token_bytes canonical_from
canonical_from-token upper [] h = refl
canonical_from-token upper (c ∷ s) h =
    ground (arith, upper_byte-token c, lower_byte-token c, canonical_from-token (c == b'-') s)

-- The canonical spelling of a valid name is a valid name.
canonical-valid :
    (name : Str)
    → valid_http_header_name name ≡ true
    → valid_http_header_name (canonical name) ≡ true
unfolding valid_http_header_name canonical all_token_bytes canonical_from equal
canonical-valid [] h = h
canonical-valid (c ∷ s) h =
    either_branch (λ t. valid_http_header_name t ≡ true) _ (canonical_from true (c ∷ s)) (c ∷ s)
      (canonical_from-token true (c ∷ s) h) h

-- A valid name that a request may carry, with the valid name of a variable.
abbrev pub IsMapping : SecretHeaderMapping → Type 0
IsMapping m =
    (valid_http_header_name m.header ≡ true)
    × (unsupported_secret_header m.header ≡ false)
    × (valid_environment_variable_name m.env_var ≡ true)

-- A mapping for a header that has none yet.
abbrev IsNew : List Str → SecretHeaderMapping → Type 0
IsNew seen m = IsMapping m × (¬ In (to_lower m.header) seen)

check_mapping-IsNew :
    (seen : List Str) (name env : Str) → Yields (IsNew seen) (check_mapping seen name env)
unfolding check_mapping
check_mapping-IsNew seen name env =
    let valid = canonical-valid name in
    let fresh = In→contains seen (to_lower (canonical name)) in ground arith

parse_mapping-IsNew :
    (seen : List Str) (value : Str) → Yields (IsNew seen) (parse_mapping seen value)
unfolding parse_mapping
parse_mapping-IsNew seen value = elim (Option-cases (cut_at (λ c. c == b'=') value)) [
  | inl n ↦ rw (parse_mapping, n) tt
  | inr ((name, env), n) ↦
      rw (parse_mapping, n) (check_mapping-IsNew seen (trim_space name) (trim_space env))
]

abbrev pub lower_headers : List SecretHeaderMapping → List Str
lower_headers ms = map (λ m. to_lower m.header) ms

-- What the mappings behind those seen are.
abbrev AreNew : List Str → List Str → List SecretHeaderMapping → Type 0
AreNew seen values ms =
    All IsMapping ms
    × Distinct (lower_headers ms)
    × ((k : Str) → In k (lower_headers ms) → ¬ In k seen)
    × (length ms ≡ length values)

parse_mappings-AreNew :
    (seen values : List Str) → Yields (AreNew seen values) (parse_mappings seen values)
unfolding parse_mappings
parse_mappings-AreNew seen [] = (tt, tt, λ k h. absurd h, refl)
parse_mappings-AreNew seen (value ∷ values) =
    Yields-bind (IsNew seen) (AreNew seen (value ∷ values)) (parse_mapping seen value) _
      (parse_mapping-IsNew seen value)
      (λ m new.
        let seen' = to_lower m.header ∷ seen in
        Yields-bind (AreNew seen' values) (AreNew seen (value ∷ values))
          (parse_mappings seen' values) _ (parse_mappings-AreNew seen' values)
          (λ ms rest. (
            (new.0, rest.0),
            (λ i. rest.2 (to_lower m.header) i (inl refl), rest.1),
            λ k i s. elim i [
              | inl e ↦ new.1 (subst (λ j. In j seen) e s)
              | inr j ↦ rest.2 k j (inr s)
            ],
            omega (arith, rest.3),
          )))

-- If the mappings are accepted, there is one for each value, each sets a valid header that a replay does
-- not leave out from a variable with a valid name, and no two set the same header, whatever the case of
-- the letters.
pub parse_secret_header_mappings-IsMapping :
    (values : List Str) (ms : List SecretHeaderMapping)
    → parse_secret_header_mappings values ≡ ok ms
    → All IsMapping ms × Distinct (lower_headers ms) × (length ms ≡ length values)
unfolding parse_secret_header_mappings
parse_secret_header_mappings-IsMapping values ms h =
    let r =
      Yields-ok (AreNew [] values) (parse_mappings [] values) ms (parse_mappings-AreNew [] values)
        h in
    (r.0, r.1, r.3)
