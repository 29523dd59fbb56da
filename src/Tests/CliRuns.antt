-- ===== src/Tests/CliRuns.antt =====
-- The checks of the commands, and the redaction of what they print, at small inputs.
use graybox_core.Cli.Config.Secrets.{IsKnown, resolve_request_config-IsKnown}
use graybox_core.Cli.Config.{
  Config, resolve_request_config, ordered_keys, environment_reference, check_reference, cut_text,
  contains_any,
}
use graybox_core.Cli.Config.Valid.Checked.{IsChecked, validate_config-IsChecked}
use graybox_core.Cli.Config.Valid.{
  validate_config, check_replay, valid_names, valid_pointers, overlapping, any_below, valid_fields,
  valid_headers, valid_references,
}
use graybox_core.Cli.Exit.Diffs.{IsUnchanged, Some, diff_exit_code_iff}
use graybox_core.Cli.Exit.{diff_exit_code}
use graybox_core.Cli.Ignore.Built.{NamedBy, build_diff_rules-covers}
use graybox_core.Cli.Ignore.{
  same_location, contains_location, default_diff_ignored_locations, valid_json_pointer,
  valid_tildes, location_of, pointer_case, parse_diff_ignore_location, append_location,
  append_locations, append_values, build_diff_rules,
}
use graybox_core.Cli.Redactor.Encoded.{in_quotes, inner-in_quotes}
use graybox_core.Cli.Redactor.Data.Covered.{InPayload, IsRedaction, redact_data-IsRedaction}
use graybox_core.Cli.Redactor.Data.{redact_data}
use graybox_core.Cli.Redactor.Output.Rewritten.{IsReadable, Rewrites, redact_json-Rewrites}
use graybox_core.Cli.Redactor.Output.Tokens.{Token, IsEscaped, plain, quoted, token_text}
use graybox_core.Cli.Redactor.Output.{StringReader, redact_json}
use graybox_core.Cli.Redactor.Scrubbed.{Scrub, redact-Scrub}
use graybox_core.Cli.Redactor.{
  Spellings, inner, secret_forms, SecretRedactor, new_secret_redactor, redact,
}
use graybox_core.Cli.SecretHeaders.Mapped.{
  IsMapping, lower_headers, parse_secret_header_mappings-IsMapping,
}
use graybox_core.Cli.SecretHeaders.{
  SecretHeaderMapping, check_mapping, parse_mapping, parse_mappings, parse_secret_header_mappings,
  valid_http_header_name, all_token_bytes, http_token_byte, valid_environment_variable_name,
  environment_variable_start_byte, environment_variable_byte, all_variable_bytes,
  unsupported_secret_header,
}
use graybox_core.Cli.Target.Resolved.{IsTarget, resolve_execution_target-IsTarget}
use graybox_core.Cli.Target.{
  Network, contains_text, check_target, parse_target, target_value, resolve_execution_target,
  is_loopback_target,
}
use graybox_core.Diff.Domain.{Report, header_data, outcome_failed, outcome_changed}
use graybox_core.Config.Strict.{IsPlain, parse-IsPlain}
use graybox_core.Config.{
  Node, document, mapping, cons, nil, end, valid_node, Yaml, decode_strict, parse,
}
use graybox_core.Diff.Location.Ignore.{Covered}
use graybox_core.Diff.Location.{
  Location, headers, body, header_location, body_location, location_string, Rules, ignores,
}
use graybox_core.Failure.{ok, err, not_found}
use graybox_core.Prelude.{
  true, false, ◌≡◌, ◌≢◌, ◌↔◌, ◌⊎◌, refl, ap, [], ◌∷◌, ◌++◌, some, All, List, map, length,
}
use graybox_core.Replay.Headers.{canonical, canonical_from}
use graybox_core.Sanitize.Pointer.{pointer, unescape_parts, valid_escapes}
use graybox_core.Sort.{sort_strings, sort_by, insert_by}
use graybox_core.Text.{split_on, less}
use graybox_core.Sort.Laws.{In, Distinct}
use graybox_core.Tests.Fixtures.{plain_platform, no_policy}
use graybox_core.Text.{
  Str, codes, equal, has_prefix, to_lower, cut_at, trim_space, trim_left, trim_right,
}
use graybox_core.Url.{Url}

abbrev here : Url
here = record {
  scheme = codes "http";
  user = false;
  host = codes "h";
  path = codes "http://h";
  raw_path = [];
  raw_query = [];
  force_query = false;
  fragment = [];
}

abbrev loopback : Network
loopback = record { hostname = λ u. u.host; is_loopback_ip = λ s. true }

given_target :
    resolve_execution_target plain_platform loopback (λ k. err not_found) (codes "http://h") false
    ≡ ok here
unfolding resolve_execution_target target_value parse_target check_target contains_text to_lower
    equal has_prefix
given_target = refl

resolve_execution_target-IsTarget_example :
    IsTarget here
    × ((codes "http://h" ≢ []) ⊎ (false ≡ true) ⊎ (is_loopback_target loopback here ≡ true))
resolve_execution_target-IsTarget_example =
    resolve_execution_target-IsTarget plain_platform loopback (λ k. err not_found)
      (codes "http://h") false here given_target

abbrev one_result : Report
one_result = record {
  results =
      record {
        exchange_id = 1;
        method = codes "GET";
        path = codes "/";
        baseline_duration = 1;
        current_duration = 1;
        comparison = record { differences = [] };
        err = some not_found;
      }
      ∷ [];
}

diff_exit_code_iff_example :
    ((diff_exit_code one_result ≡ 0) ↔ All IsUnchanged one_result.results)
    × ((diff_exit_code one_result ≡ 3) ↔ Some outcome_failed one_result.results)
    × ((diff_exit_code one_result ≡ 1)
        ↔ ((¬ Some outcome_failed one_result.results) × Some outcome_changed one_result.results))
diff_exit_code_iff_example = diff_exit_code_iff one_result

abbrev ignored_id : List Str
ignored_id = codes "response.body#/id" ∷ []

abbrev ignore_rules : Rules
ignore_rules = record {
  ignore =
      record { component = headers; path = codes "date" }
      ∷ record { component = headers; path = codes "content-length" }
      ∷ record { component = body; path = codes "/id" }
      ∷ [];
}

abbrev ignore_texts : List Str
ignore_texts =
    codes "response.headers.date"
    ∷ codes "response.headers.content-length"
    ∷ codes "response.body#/id"
    ∷ []

built : build_diff_rules ignored_id ≡ ok (ignore_rules, ignore_texts)
unfolding build_diff_rules append_values parse_diff_ignore_location location_of pointer_case
    valid_json_pointer valid_tildes append_locations append_location contains_location same_location
    default_diff_ignored_locations header_location body_location location_string to_lower trim_space
    trim_left trim_right equal has_prefix
built = refl

build_diff_rules-covers_example :
    ((l : Location)
      → (ignores ignore_rules l ≡ true) ↔ (
          (rule : Location) × (In rule default_diff_ignored_locations ⊎ NamedBy ignored_id rule)
          × Covered rule l))
    × Distinct ignore_rules.ignore
    × (ignore_texts ≡ map location_string ignore_rules.ignore)
build_diff_rules-covers_example = build_diff_rules-covers ignored_id ignore_rules ignore_texts built

abbrev key_mapping : SecretHeaderMapping
key_mapping = record { header = codes "X-Key"; env_var = codes "KEY" }

mapped : parse_secret_header_mappings (codes "x-key=KEY" ∷ []) ≡ ok (key_mapping ∷ [])
unfolding parse_secret_header_mappings parse_mappings parse_mapping check_mapping
    valid_http_header_name all_token_bytes http_token_byte valid_environment_variable_name
    environment_variable_start_byte environment_variable_byte all_variable_bytes
    unsupported_secret_header canonical canonical_from to_lower trim_space trim_left trim_right
    equal cut_at
mapped = refl

parse_secret_header_mappings-IsMapping_example :
    All IsMapping (key_mapping ∷ [])
    × Distinct (lower_headers (key_mapping ∷ []))
    × (length (key_mapping ∷ []) ≡ length (codes "x-key=KEY" ∷ []))
parse_secret_header_mappings-IsMapping_example =
    parse_secret_header_mappings-IsMapping (codes "x-key=KEY" ∷ []) (key_mapping ∷ []) mapped

-- Every text is spelled as it is.
abbrev as_is : Spellings
as_is = record {
  query_escape = λ s. s;
  path_escape = λ s. s;
  marshal = λ s. ok (b'"' ∷ s ++ b'"' ∷ []);
  encode = λ s. ok (b'"' ∷ s ++ b'"' ∷ []);
}

abbrev hidden_values : List Str
hidden_values = codes "abc" ∷ []

redact-Scrub_example :
    ((secret : Str)
      → In secret hidden_values
      → secret ≢ []
      → In secret (new_secret_redactor as_is hidden_values).forms)
    × ((secret form : Str)
        → In secret hidden_values
        → In form (secret_forms as_is secret)
        → form ≢ []
        → In form (new_secret_redactor as_is hidden_values).forms)
    × Scrub
        (new_secret_redactor as_is hidden_values).forms
        (codes "xabcy")
        (redact (new_secret_redactor as_is hidden_values) (codes "xabcy"))
redact-Scrub_example = redact-Scrub as_is hidden_values (codes "xabcy")

abbrev abc_redactor : SecretRedactor
abc_redactor = record { forms = codes "abc" ∷ []; values = hidden_values }

abbrev reader : StringReader
reader = record { valid = λ s. true; unmarshal = λ s. ok (inner s) }

abbrev on_a_line : Spellings
on_a_line = record as_is { encode = λ s. ok (in_quotes s ++ 10 ∷ []) }

abbrev key_and_value : List Token
key_and_value =
    plain b'{' ∷ quoted (codes "abc") ∷ plain b':' ∷ quoted (codes "abc") ∷ plain b'}' ∷ []

abc-IsEscaped : IsEscaped (codes "abc")
abc-IsEscaped = (refl, (refl, (refl, refl)))

abc-IsReadable : IsReadable on_a_line reader abc_redactor (quoted (codes "abc"))
abc-IsReadable =
    let hidden = redact abc_redactor (codes "abc") in
    (codes "abc", hidden, refl, refl, ap ok (inner-in_quotes hidden))

redact_json-Rewrites_example :
    (out : Str) × (redact_json on_a_line reader abc_redactor (token_text key_and_value) ≡ ok out)
    × Rewrites on_a_line reader abc_redactor key_and_value out
redact_json-Rewrites_example =
    redact_json-Rewrites on_a_line reader abc_redactor key_and_value (λ e. cc) refl
      (refl, (abc-IsEscaped, (refl, (abc-IsEscaped, (refl, tt)))))
      (tt, (abc-IsReadable, (tt, (abc-IsReadable, (tt, tt)))))

redact_data-IsRedaction_example :
    InPayload (IsRedaction abc_redactor) (redact_data abc_redactor (header_data hidden_values))
redact_data-IsRedaction_example =
    redact_data-IsRedaction abc_redactor (header_data hidden_values) (λ e. cc)

abbrev key_config : Config
key_config = record {
  redact = no_policy;
  replay = record {
    headers = (codes "X-Key", codes "${KEY}") ∷ [];
    json = (codes "/id", codes "a${ID}b") ∷ [];
    query = [];
    form = [];
  };
}

resolve_request_config-IsKnown_example :
    IsKnown (resolve_request_config (λ name. some name) key_config []).0
resolve_request_config-IsKnown_example =
    resolve_request_config-IsKnown (λ name. some name) key_config []

valid_key_config : validate_config key_config ≡ ok (key_config, no_policy)
unfolding validate_config check_replay valid_names valid_pointers overlapping any_below valid_fields
    valid_headers valid_references ordered_keys environment_reference check_reference cut_text
    contains_any valid_http_header_name all_token_bytes http_token_byte
    valid_environment_variable_name environment_variable_start_byte environment_variable_byte
    all_variable_bytes unsupported_secret_header pointer unescape_parts valid_escapes split_on
    sort_strings sort_by insert_by less to_lower equal has_prefix
valid_key_config = refl

validate_config-IsChecked_example : IsChecked key_config (key_config, no_policy)
validate_config-IsChecked_example =
    validate_config-IsChecked key_config (key_config, no_policy) valid_key_config

abbrev empty_mapping : Node
empty_mapping = document (cons (mapping (codes "!!map") end) nil)

abbrev yaml : Yaml
yaml = record { first = λ s. some empty_mapping; more = λ s. false; strict = λ s. some key_config }

accepted : parse yaml [] ≡ ok key_config
unfolding parse valid_node decode_strict equal
accepted = refl

parse-IsPlain_example :
    (node : Node) × (yaml.first [] ≡ some node)
    × IsPlain node
    × (yaml.more [] ≡ false)
    × (yaml.strict [] ≡ some key_config)
parse-IsPlain_example = parse-IsPlain yaml [] key_config accepted
