-- ===== src/Cli/Config/Valid/Checked.antt =====
-- What a configuration that is accepted can be relied on for.
use graybox_core.Cli.Config.Valid.{
  valid_names, valid_pointers, valid_fields, valid_headers, overlapping, any_below,
  valid_references, check_replay, validate_config,
}
use graybox_core.Cli.Config.{Config, Reference, environment_reference, ordered_keys}
use graybox_core.Dict.{Dict}
use graybox_core.Failure.{ok, Result-cases, Yields, Yields-if, Yields-ok}
use graybox_core.Prelude.{
  true, false, not, ◌&&◌, ◌≡◌, inl, inr, refl, List, [], ◌∷◌, ◌++◌, arith, All, Bool-cases,
}
use graybox_core.Sanitize.Rules.{Rules}
use graybox_core.Text.{Str, has_prefix}

-- Every value is one reference with the text around it.
abbrev pub AreReferences : Dict Str → Type 0
AreReferences group = All (λ e. (r : Reference) × (environment_reference e.1 ≡ ok r)) group

-- No path continues an earlier one.
abbrev pub Apart : List Str → Type 0
Apart [] = Unit
Apart (path ∷ paths) =
    All (λ other. has_prefix other (path ++ b'/' ∷ []) ≡ false) paths × Apart paths

valid_references-AreReferences :
    (group : Dict Str) → valid_references group ≡ true → AreReferences group
unfolding valid_references
valid_references-AreReferences [] h = tt
valid_references-AreReferences ((name, expression) ∷ group) h =
    elim (Result-cases (environment_reference expression)) [
      | inl (r, n) ↦ ((r, n), valid_references-AreReferences group (rw (valid_references, n) at h))
      | inr (e, n) ↦ cc (rw (valid_references, n) at h)
    ]

any_below-none :
    (path : Str) (others : List Str)
    → any_below path others ≡ false
    → All (λ other. has_prefix other (path ++ b'/' ∷ []) ≡ false) others
unfolding any_below
any_below-none path [] h = tt
any_below-none path (other ∷ others) h = ground (arith, any_below-none path others)

overlapping-Apart : (paths : List Str) → overlapping paths ≡ false → Apart paths
unfolding overlapping
overlapping-Apart [] h = tt
overlapping-Apart (path ∷ paths) h =
    ground (arith, any_below-none path paths, overlapping-Apart paths)

-- What the checks establish.
abbrev pub IsChecked : Config → (Config × Rules) → Type 0
IsChecked cfg out =
    (out.0 ≡ cfg)
    × (out.1 ≡ cfg.redact)
    × AreReferences cfg.replay.headers
    × AreReferences cfg.replay.json
    × AreReferences cfg.replay.query
    × AreReferences cfg.replay.form
    × Apart (ordered_keys cfg.replay.json)

check_replay-Yields :
    (cfg : Config)
    → Apart (ordered_keys cfg.replay.json)
    → Yields (IsChecked cfg) (check_replay cfg)
unfolding check_replay
check_replay-Yields cfg apart =
    let replay = cfg.replay in
    let refused = not (valid_headers [] (ordered_keys replay.headers)) in
    let sound =
      valid_references replay.headers
      && valid_references replay.json
      && (valid_references replay.query && valid_references replay.form) in
    elim (Bool-cases sound) [
      | inr e ↦ rw e (Yields-if (IsChecked cfg) refused _ _ tt tt)
      | inl e ↦ rw e (
          Yields-if (IsChecked cfg) refused _ (ok (cfg, cfg.redact)) tt (
            refl,
            refl,
            valid_references-AreReferences replay.headers (ground arith),
            valid_references-AreReferences replay.json (ground arith),
            valid_references-AreReferences replay.query (ground arith),
            valid_references-AreReferences replay.form (ground arith),
            apart,
          ))
    ]

-- A configuration that is accepted is kept as it is, each value for a replay holds one reference to a
-- variable, so that reading it cannot fail later, and no replaced JSON path continues another one that
-- stands before it in sorted order.
pub validate_config-IsChecked :
    (cfg : Config) (out : Config × Rules) → validate_config cfg ≡ ok out → IsChecked cfg out
unfolding validate_config
validate_config-IsChecked cfg out h =
    let rules = cfg.redact in
    let paths = ordered_keys cfg.replay.json in
    let names = not (valid_names rules.headers) in
    let pointers = not (valid_pointers rules.json && valid_pointers paths) in
    let fields = not (
      valid_fields rules.query
      && valid_fields rules.form
      && (valid_fields (ordered_keys cfg.replay.query)
          && valid_fields (ordered_keys cfg.replay.form))) in
    Yields-ok (IsChecked cfg) (validate_config cfg) out
      (elim (Bool-cases (overlapping paths)) [
        | inl e ↦
            rw (validate_config, e)
              (Yields-if (IsChecked cfg) names _ _ tt
                (Yields-if (IsChecked cfg) pointers _ _ tt tt))
        | inr e ↦
            rw (validate_config, e)
              (Yields-if (IsChecked cfg) names _ _ tt (
                Yields-if (IsChecked cfg) pointers _ _ tt (
                  Yields-if (IsChecked cfg) fields _ _ tt
                    (check_replay-Yields cfg (overlapping-Apart paths e)))))
      ])
      h
