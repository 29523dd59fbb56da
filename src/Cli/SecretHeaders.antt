-- ===== src/Cli/SecretHeaders.antt =====
-- internal/cli/secret_headers.go: the values of --secret-header, and what is a valid header name,
-- header value and environment variable name.
pub mod Mapped
use graybox_core.Dict.{contains}
use graybox_core.Failure.{usage, Result, ok, err, ◌>>=◌}
use graybox_core.Prelude.{
  ℕ, Bool, true, false, not, ◌&&◌, ◌||◌, List, [], ◌∷◌, ◌++◌, none, some, ltb, leb, ◌==◌,
  if◌then◌else◌,
}
use graybox_core.Replay.Headers.{any_byte, canonical}
use graybox_core.Text.{Str, codes, equal, to_lower, trim_space, cut_at}

-- `httpTokenByte`
unfoldable pub http_token_byte : ℕ → Bool
http_token_byte c =
    leb b'a' c && leb c b'z'
    || leb b'A' c && leb c b'Z'
    || leb b'0' c && leb c b'9'
    || any_byte (codes "!#$%&'*+-.^_`|~") c

-- The loop of `validHTTPHeaderName`.
unfoldable pub all_token_bytes : Str → Bool
all_token_bytes [] = true
all_token_bytes (c ∷ s) = if not (http_token_byte c) then false else all_token_bytes s

-- `validHTTPHeaderName`
unfoldable pub valid_http_header_name : Str → Bool
valid_http_header_name name = if equal name [] then false else all_token_bytes name

-- `validHTTPHeaderValue`
unfoldable pub valid_http_header_value : Str → Bool
valid_http_header_value [] = true
valid_http_header_value (c ∷ s) =
    let rest = valid_http_header_value s in
    if c == 9 then rest else if ltb c 32 || c == 127 then false else rest

-- `environmentVariableStartByte`
unfoldable pub environment_variable_start_byte : ℕ → Bool
environment_variable_start_byte c =
    c == b'_' || leb b'a' c && leb c b'z' || leb b'A' c && leb c b'Z'

-- `environmentVariableByte`
unfoldable pub environment_variable_byte : ℕ → Bool
environment_variable_byte c = environment_variable_start_byte c || leb b'0' c && leb c b'9'

-- The loop of `validEnvironmentVariableName`.
unfoldable pub all_variable_bytes : Str → Bool
all_variable_bytes [] = true
all_variable_bytes (c ∷ s) =
    if not (environment_variable_byte c) then false else all_variable_bytes s

-- `validEnvironmentVariableName`
unfoldable pub valid_environment_variable_name : Str → Bool
valid_environment_variable_name [] = false
valid_environment_variable_name (c ∷ s) =
    if not (environment_variable_start_byte c) then false else all_variable_bytes s

-- `unsupportedSecretHeaders`
abbrev pub unsupported_secret_headers : List Str
unsupported_secret_headers =
    codes "connection"
    ∷ codes "content-length"
    ∷ codes "host"
    ∷ codes "keep-alive"
    ∷ codes "proxy-authenticate"
    ∷ codes "proxy-authorization"
    ∷ codes "proxy-connection"
    ∷ codes "te"
    ∷ codes "trailer"
    ∷ codes "transfer-encoding"
    ∷ codes "upgrade"
    ∷ []

-- `unsupportedSecretHeader`
unfoldable pub unsupported_secret_header : Str → Bool
unsupported_secret_header name = contains unsupported_secret_headers (to_lower name)

-- `secretHeaderMapping`
pub record SecretHeaderMapping : Type 0 where
  pub header : Str
  pub env_var : Str

-- `secretHeaderFlag.Set`
unfoldable pub set_flag : List Str → Str → Result (List Str)
set_flag values value =
    if equal (trim_space value) []
    then err (usage (codes "secret header mapping must not be empty"))
    else ok (values ++ value ∷ [])

-- The checks on the two trimmed halves of a mapping.
unfoldable pub check_mapping : List Str → Str → Str → Result SecretHeaderMapping
check_mapping seen name env =
    if equal name []
    then err (usage (codes "invalid --secret-header mapping; header name must not be empty"))
    else if equal env []
    then err (
        usage
          (codes "invalid --secret-header mapping; environment variable name must not be empty"))
    else if not (valid_http_header_name name)
    then err (usage (codes "invalid request header name in --secret-header"))
    else if not (valid_environment_variable_name env)
    then err (usage (codes "invalid environment variable name in --secret-header"))
    else if unsupported_secret_header (canonical name)
    then err (usage (codes "--secret-header does not support request header"))
    else if contains seen (to_lower (canonical name))
    then err (usage (codes "duplicate --secret-header mapping"))
    else ok (record { header = canonical name; env_var = env })

-- One round of the loop: `seen` are the headers of the mappings so far, in lower case.
unfoldable pub parse_mapping : List Str → Str → Result SecretHeaderMapping
unfolding check_mapping
parse_mapping seen value = elim (cut_at (λ c. c == b'=') value) [
  | none ↦ err (usage (codes "invalid --secret-header mapping; expected HEADER=ENV_VAR"))
  | some (name, env) ↦ check_mapping seen (trim_space name) (trim_space env)
]

unfoldable pub parse_mappings : List Str → List Str → Result (List SecretHeaderMapping)
unfolding parse_mapping
parse_mappings seen [] = ok []
parse_mappings seen (value ∷ values) = do
  mapping ← parse_mapping seen value
  rest ← parse_mappings (to_lower mapping.header ∷ seen) values
  ok (mapping ∷ rest)

-- `parseSecretHeaderMappings`
unfoldable pub parse_secret_header_mappings : List Str → Result (List SecretHeaderMapping)
parse_secret_header_mappings values = parse_mappings [] values
