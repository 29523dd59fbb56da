-- ===== src/Cli/Redactor.antt =====
-- `secretRedactor` of internal/cli/secret_headers.go: what is hidden of a secret, and how.
pub mod Forms
pub mod Encoded
pub mod Scrubbed
pub mod Output
pub mod Data
use graybox_core.Cli.SecretHeaders.{valid_http_header_name}
use graybox_core.Dict.{contains}
use graybox_core.Failure.{failure, Result, ok, err, ◌>>=◌}
use graybox_core.Prelude.{
  ℕ, zero, suc, ◌+◌, ◌-◌, Bool, true, false, not, ◌&&◌, ◌||◌, List, [], ◌∷◌, ◌++◌, Option, none,
  some, ltb, leb, ◌==◌, if◌then◌else◌, length, take, drop, concat_map,
}
use graybox_core.Replay.Headers.{canonical}
use graybox_core.Sanitize.Redact.{redacted_value}
use graybox_core.Sort.{sort_by}
use graybox_core.Text.{Str, codes, equal, has_prefix, to_lower, trim_space, replace_all}

-- The spellings that Go's standard library gives a text: url.QueryEscape, url.PathEscape,
-- json.Marshal, and json.Encoder.Encode without HTML escapes.
pub record Spellings : Type 0 where
  pub query_escape : Str → Str
  pub path_escape : Str → Str
  pub marshal : Str → Result Str
  pub encode : Str → Result Str

abbrev lower_hex : ℕ → ℕ
lower_hex c = if leb b'A' c && leb c b'F' then c + 32 else c

-- `lowerPercentEscapes`
unfoldable pub lower_percent_escapes : Str → Str
lower_percent_escapes [] = []
lower_percent_escapes (c ∷ []) = c ∷ []
lower_percent_escapes (c ∷ d ∷ []) = c ∷ d ∷ []
lower_percent_escapes (c ∷ d ∷ e ∷ s) = elim (c == b'%') [
  | true ↦ c ∷ lower_hex d ∷ lower_hex e ∷ lower_percent_escapes s
  | false ↦ c ∷ lower_percent_escapes (d ∷ e ∷ s)
]

-- `s[1 : len(s)-1]`
abbrev pub inner : Str → Str
inner s = take (length s - 2) (drop 1 s)

-- Does the text begin and end with a quote?
abbrev quoted : Str → Bool
quoted [] = false
quoted (c ∷ s) = c == b'"' && equal (drop (length s - 1) s) (b'"' ∷ [])

module _ (go : Spellings) where
  -- `jsonStringWithoutHTMLEscaping`
  unfoldable pub json_string_without_html_escaping : Str → Result Str
  json_string_without_html_escaping value = do
    written ← go.encode value
    let encoded = trim_space written
    if ltb (length encoded) 2 || not (quoted encoded)
        then err (failure (codes "unexpected JSON string encoding"))
        else ok (inner encoded)

  header_forms : Str → List Str
  header_forms secret =
      if valid_http_header_name secret then canonical secret ∷ to_lower secret ∷ [] else []

  marshal_forms : Result Str → List Str
  marshal_forms (err e) = []
  marshal_forms (ok encoded) = if leb 2 (length encoded) then inner encoded ∷ [] else []

  plain_forms : Result Str → List Str
  plain_forms (err e) = []
  plain_forms (ok encoded) = encoded ∷ []

  -- The arguments of `appendValue` for one secret.
  unfoldable pub secret_forms : Str → List Str
  unfolding header_forms marshal_forms plain_forms
  secret_forms secret =
      header_forms secret
      ++ go.query_escape secret
        ∷ lower_percent_escapes (go.query_escape secret)
        ∷ go.path_escape secret
        ∷ lower_percent_escapes (go.path_escape secret)
        ∷ replace_all (replace_all secret (codes "~") (codes "~0")) (codes "/") (codes "~1")
        ∷ secret
        ∷ marshal_forms (go.marshal secret)
      ++ plain_forms (json_string_without_html_escaping secret)

-- The closure `appendValue`; `seen` holds what `replacements` holds.
unfoldable pub append_value : Str → List Str → List Str
append_value value replacements =
    if equal value []
    then replacements
    else if contains replacements value
    then replacements
    else replacements ++ value ∷ []

unfoldable pub append_all : List Str → List Str → List Str
append_all [] replacements = replacements
append_all (value ∷ values) replacements = append_all values (append_value value replacements)

abbrev pub longer : Str → Str → Bool
longer a b = ltb (length b) (length a)

-- `secretRedactor`: the old strings of the replacer, none for a nil one, and the secrets.
pub record SecretRedactor : Type 0 where
  pub forms : List Str
  pub values : List Str

-- `newSecretRedactor`
unfoldable pub new_secret_redactor : Spellings → List Str → SecretRedactor
new_secret_redactor go secrets =
    let replacements = sort_by longer (append_all (concat_map (secret_forms go) secrets) []) in
    elim replacements [
      | [] ↦ record { forms = []; values = [] }
      | ◌∷◌ form forms ↦ record { forms = form ∷ forms; values = secrets }
    ]

-- The first of the old strings that stands at the head of the text.
unfoldable pub first_match : List Str → Str → Option Str
first_match [] s = none
first_match (form ∷ forms) s = if has_prefix s form then some form else first_match forms s

-- `strings.Replacer.Replace` for nonempty old strings and one new string: `skip` bytes of a match are
-- still to be passed over.
unfoldable pub replace_forms : List Str → ℕ → Str → Str
unfolding first_match
replace_forms forms skip [] = []
replace_forms forms (suc skip) (c ∷ s) = replace_forms forms skip s
replace_forms forms zero (c ∷ s) = elim (first_match forms (c ∷ s)) [
  | none ↦ c ∷ replace_forms forms zero s
  | some form ↦ redacted_value ++ replace_forms forms (length form - 1) s
]

-- `secretRedactor.redact`
unfoldable pub redact : SecretRedactor → Str → Str
unfolding replace_forms
redact r value = elim r.forms [
  | [] ↦ value
  | ◌∷◌ form forms ↦ replace_forms (form ∷ forms) zero value
]
