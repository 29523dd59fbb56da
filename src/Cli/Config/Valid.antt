-- ===== src/Cli/Config/Valid.antt =====
-- `validateConfig` and `recordingRedaction` of internal/cli/config.go: the checks on a whole
-- configuration, and on the policy that a recording carries.
pub mod Checked
use graybox_core.Cli.Config.{
  Config, ReplayConfig, Reference, contains_any, environment_reference, ordered_keys,
}
use graybox_core.Cli.SecretHeaders.{valid_http_header_name, unsupported_secret_header}
use graybox_core.Cli.Target.{MetadataReader}
use graybox_core.Dict.{Dict, contains}
use graybox_core.Failure.{
  Error, wrap, usage, invalid_recording, is_not_found, Result, ok, err, ◌>>=◌,
}
use graybox_core.Prelude.{ℕ, Bool, true, false, not, ◌&&◌, ◌||◌, List, [], ◌∷◌, ◌++◌, if◌then◌else◌}
use graybox_core.Sanitize.Pointer.{pointer}
use graybox_core.Sanitize.Rules.{Rules, merge}
use graybox_core.Text.{Str, codes, equal, has_prefix, to_lower}

-- The closure `invalid`.
abbrev pub invalid : Str → Error
invalid message = usage (codes "invalid graybox configuration: " ++ message)

-- The loop over the redacted header names.
unfoldable pub valid_names : List Str → Bool
valid_names [] = true
valid_names (name ∷ names) = if not (valid_http_header_name name) then false else valid_names names

-- The loop over the JSON Pointers.
unfoldable pub valid_pointers : List Str → Bool
valid_pointers [] = true
valid_pointers (path ∷ paths) = elim (pointer path) [
  | err e ↦ false
  | ok tokens ↦ valid_pointers paths
]

-- Does another path continue this one?
unfoldable pub any_below : Str → List Str → Bool
any_below path [] = false
any_below path (other ∷ others) =
    if has_prefix other (path ++ b'/' ∷ []) then true else any_below path others

-- The loop over the sorted replacement paths.
unfoldable pub overlapping : List Str → Bool
unfolding any_below
overlapping [] = false
overlapping (path ∷ paths) = if any_below path paths then true else overlapping paths

-- The loop over the names of query and form fields.
unfoldable pub valid_fields : List Str → Bool
valid_fields [] = true
valid_fields (name ∷ names) =
    if equal name [] || contains_any (13 ∷ 10 ∷ 0 ∷ []) name then false else valid_fields names

-- The loop over the replay headers, with the names seen so far.
unfoldable pub valid_headers : List Str → List Str → Bool
valid_headers seen [] = true
valid_headers seen (name ∷ names) =
    if not (valid_http_header_name name)
      || (unsupported_secret_header name || contains seen (to_lower name))
    then false
    else valid_headers (to_lower name ∷ seen) names

-- The loop over the expressions of a group.
unfoldable pub valid_references : Dict Str → Bool
valid_references [] = true
valid_references ((name, expression) ∷ group) = elim (environment_reference expression) [
  | err e ↦ false
  | ok reference ↦ valid_references group
]

-- The checks behind those on the names of headers, in their order.
unfoldable pub check_replay : Config → Result (Config × Rules)
unfolding valid_references valid_headers
check_replay cfg =
    let replay = cfg.replay in
    if not (valid_headers [] (ordered_keys replay.headers))
    then err (invalid (codes "invalid, unsupported, or duplicate replay header"))
    else if not (
        valid_references replay.headers
        && valid_references replay.json
        && (valid_references replay.query && valid_references replay.form))
    then err (invalid (codes "replay values require exactly one ${ENV_VAR} reference"))
    else ok (cfg, cfg.redact)

-- `validateConfig`
unfoldable pub validate_config : Config → Result (Config × Rules)
unfolding valid_names valid_pointers overlapping valid_fields check_replay
validate_config cfg =
    let rules = cfg.redact in
    let paths = ordered_keys cfg.replay.json in
    if not (valid_names rules.headers)
    then err (invalid (codes "invalid redaction header name"))
    else if not (valid_pointers rules.json && valid_pointers paths)
    then err (invalid (codes "invalid JSON field path"))
    else if overlapping paths
    then err (invalid (codes "overlapping JSON replacement paths"))
    else if not (
        valid_fields rules.query
        && valid_fields rules.form
        && (valid_fields (ordered_keys cfg.replay.query)
            && valid_fields (ordered_keys cfg.replay.form)))
    then err (invalid (codes "invalid query/form field name"))
    else check_replay cfg

-- `recordingRedaction`; `parse` is `config.Parse`.
unfoldable pub recording_redaction : (Str → Result Config) → MetadataReader → Rules → Result Rules
recording_redaction parse metadata current = elim (metadata (codes "redaction_policy")) [
  | err e ↦ if is_not_found e then ok current else err e
  | ok raw ↦ elim (do cfg ← parse (codes "{\"redact\":" ++ raw ++ codes "}"); validate_config cfg) [
    | err e ↦ err (wrap (codes "invalid recorded redaction policy") invalid_recording)
    | ok (cfg, capture) ↦ ok (merge current capture)
  ]
]
