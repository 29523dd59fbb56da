-- ===== src/Cli/Config.antt =====
-- internal/cli/config.go: the checks on a configuration, and the values that it takes from the environment.
pub mod References
pub mod Secrets
pub mod Valid
use graybox_core.Cli.SecretHeaders.{
  valid_http_header_name, valid_http_header_value, valid_environment_variable_name,
  unsupported_secret_header, SecretHeaderMapping, parse_secret_header_mappings,
}
use graybox_core.Dict.{Dict, contains, keys, lookup, put}
use graybox_core.Failure.{Error, failure, usage, Result, ok, err}
use graybox_core.Prelude.{
  ℕ, Bool, true, false, not, ◌&&◌, ◌||◌, List, [], ◌∷◌, ◌++◌, Option, none, some, ◌==◌,
  if◌then◌else◌, length, drop,
}
use graybox_core.Recording.{Headers}
use graybox_core.Replay.Headers.{any_byte, canonical}
use graybox_core.Replay.Replacements.{Replacements}
use graybox_core.Replay.Runner.{unless_err}
use graybox_core.Sanitize.Pointer.{pointer}
use graybox_core.Sanitize.Rules.{Rules}
use graybox_core.Sort.{sort_strings}
use graybox_core.Text.{Str, codes, equal, has_prefix, to_lower}

-- `config.Replay`
pub record ReplayConfig : Type 0 where
  pub headers : Dict Str
  pub json : Dict Str
  pub query : Dict Str
  pub form : Dict Str

-- `config.Config`
pub record Config : Type 0 where
  pub redact : Rules
  pub replay : ReplayConfig

-- `keys`
unfoldable pub ordered_keys : Dict Str → List Str
ordered_keys values = sort_strings (keys values)

-- `strings.Cut`: none where the separator is not found.
unfoldable pub cut_text : Str → Str → Option (Str × Str)
cut_text sep [] = if equal sep [] then some ([], []) else none
cut_text sep (c ∷ s) =
    let rest = cut_text sep s in
    if has_prefix (c ∷ s) sep
    then some ([], drop (length sep) (c ∷ s))
    else (elim rest [ none ↦ none | some (before, after) ↦ some (c ∷ before, after) ])

-- `strings.ContainsAny`
unfoldable pub contains_any : Str → Str → Bool
contains_any bytes [] = false
contains_any bytes (c ∷ s) = any_byte bytes c || contains_any bytes s

-- A reference's prefix, the name of its variable, and its suffix.
pub record Reference : Type 0 where
  pub prefix : Str
  pub name : Str
  pub suffix : Str

abbrev no_reference : Error
no_reference = failure (codes "replay values require exactly one ${ENV_VAR} reference")

-- The last two checks of `environmentReference`.
unfoldable pub check_reference : Reference → Result Reference
check_reference reference =
    if not (valid_environment_variable_name reference.name)
      || contains_any (codes "${}") (reference.prefix ++ reference.suffix)
    then err no_reference
    else ok reference

-- `environmentReference`
unfoldable pub environment_reference : Str → Result Reference
unfolding check_reference
environment_reference expression = elim (cut_text (codes "${") expression) [
  | none ↦ err no_reference
  | some (prefix, rest) ↦ elim (cut_text (codes "}") rest) [
    | none ↦ err no_reference
    | some (name, suffix) ↦
        check_reference (record { prefix = prefix; name = name; suffix = suffix })
  ]
]

-- The variables of `resolveRequestConfig`.
pub record Resolution : Type 0 where
  pub headers : Headers
  pub replacement : Replacements
  pub secrets : List Str

abbrev pub nothing_resolved : Resolution
nothing_resolved = record {
  headers = [];
  replacement = record { json = []; query = []; form = [] };
  secrets = [];
}

-- Which destination a group of values has.
pub data Group : Type 0 where
  headers_group json_group query_group form_group : Group

-- `os.LookupEnv`
abbrev pub Environment : Type 0
Environment = Str → Option Str

-- The last step for a field: its value goes to the group's destination.
unfoldable pub put_resolved : Group → Str → Str → Resolution → Resolution × Option Error
put_resolved headers_group field text s =
    if valid_http_header_value text
    then (record s { headers = put (canonical field) (text ∷ []) s.headers }, none)
    else (s, some (usage (codes "environment variable contains an invalid HTTP header value")))
put_resolved json_group field text s = (
  record s { replacement = record s.replacement { json = put field text s.replacement.json } },
  none,
)
put_resolved query_group field text s = (
  record s { replacement = record s.replacement { query = put field text s.replacement.query } },
  none,
)
put_resolved form_group field text s = (
  record s { replacement = record s.replacement { form = put field text s.replacement.form } },
  none,
)

-- The value of the variable, and the text around it, become secrets.
unfoldable pub with_value : Group → Str → Reference → Str → Resolution → Resolution × Option Error
unfolding put_resolved
with_value group field reference value s =
    let text = reference.prefix ++ value ++ reference.suffix in
    put_resolved group field text (record s { secrets = s.secrets ++ value ∷ text ∷ [] })

module _ (env : Environment) where
  unfoldable pub with_reference : Group → Str → Reference → Resolution → Resolution × Option Error
  unfolding with_value
  with_reference group field reference s = elim (env reference.name) [
    | none ↦ (s, some (usage (codes "environment variable for runtime replacement is not set")))
    | some value ↦
        if equal value []
        then (s, some (usage (codes "environment variable for runtime replacement is empty")))
        else with_value group field reference value s
  ]

  -- One round of the inner loop, with the expression of the field.
  unfoldable pub resolve_expression : Group → Str → Str → Resolution → Resolution × Option Error
  unfolding with_reference
  resolve_expression group field expression s = elim (environment_reference expression) [
    | err e ↦ (s, some (usage (codes "replay values require exactly one ${ENV_VAR} reference")))
    | ok reference ↦ with_reference group field reference s
  ]

  -- The expression under a key; a map answers "" for a missing one.
  abbrev expression_of : Dict Str → Str → Str
  expression_of source field = elim (lookup field source) [
    | none ↦ []
    | some expression ↦ expression
  ]

  unfoldable pub resolve_fields :
      Group → Dict Str → List Str → Resolution → Resolution × Option Error
  unfolding resolve_expression
  resolve_fields group source [] s = (s, none)
  resolve_fields group source (field ∷ fields) s =
      unless_err (resolve_expression group field (expression_of source field) s)
        (resolve_fields group source fields)

  unfoldable pub resolve_group : Group → Dict Str → Resolution → Resolution × Option Error
  unfolding resolve_fields
  resolve_group group source s = resolve_fields group source (ordered_keys source) s

  -- The loop over the groups.
  unfoldable pub resolve_groups : Dict Str → ReplayConfig → Resolution × Option Error
  unfolding resolve_group
  resolve_groups expressions replay =
      unless_err (resolve_group headers_group expressions nothing_resolved) (λ s.
        unless_err (resolve_group json_group replay.json s) (λ s.
          unless_err (resolve_group query_group replay.query s)
            (λ s. resolve_group form_group replay.form s)))

-- The map `expressions`: the configured headers, then those of the flags.
unfoldable pub configured_expressions : Dict Str → Dict Str → Dict Str
configured_expressions [] expressions = expressions
configured_expressions ((name, value) ∷ headers) expressions =
    configured_expressions headers (put (canonical name) value expressions)

unfoldable pub mapped_expressions : List SecretHeaderMapping → Dict Str → Dict Str
mapped_expressions [] expressions = expressions
mapped_expressions (mapping ∷ mappings) expressions =
    mapped_expressions mappings
      (put mapping.header (codes "${" ++ mapping.env_var ++ codes "}") expressions)

-- On an error only the secrets are returned, in the redactor.
unfoldable pub resolved : Resolution × Option Error → Resolution × Option Error
resolved (s, none) = (s, none)
resolved (s, some e) = (record nothing_resolved { secrets = s.secrets }, some e)

-- `resolveRequestConfig`; the redactor is built of `secrets`.
unfoldable pub resolve_request_config : Environment → Config → List Str → Resolution × Option Error
resolve_request_config env cfg flags = elim (parse_secret_header_mappings flags) [
  | err e ↦ (nothing_resolved, some e)
  | ok mappings ↦
      let expressions =
        mapped_expressions mappings (configured_expressions cfg.replay.headers []) in
      resolved (resolve_groups env expressions cfg.replay)
]
