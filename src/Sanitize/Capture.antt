-- ===== src/Sanitize/Capture.antt =====
-- internal/sanitize/fields.go: form and query values, and the redaction of URLs and bodies.
pub mod Existing
pub mod Sizes
use graybox_core.Dict.{Dict, keys, lookup, put}
use graybox_core.Failure.{failure, Result, ok, err, ◌>>=◌}
use graybox_core.Platform.{Platform, Values}
use graybox_core.Prelude.{
  ℕ, ◌+◌, ◌-◌, Bool, true, false, not, ◌&&◌, ◌||◌, List, [], ◌∷◌, ◌++◌, Option, none, some, ltb,
  ◌==◌, if◌then◌else◌, length,
}
use graybox_core.Recording.{Headers}
use graybox_core.Sanitize.Fields.{sorted_keys, value_at, replace_json_body}
use graybox_core.Sanitize.Redact.{redacted_value, is_redacted}
use graybox_core.Sanitize.Rules.{Rules}
use graybox_core.Text.{Str, codes, equal, equal_fold, has_suffix}
use graybox_core.Url.{Url}

-- `redactions`
unfoldable pub redactions : List Str → Dict Str
redactions [] = []
redactions (path ∷ paths) = put path redacted_value (redactions paths)

-- `for i := range items { items[i] = values[key] }`
unfoldable pub fill : Str → List Str → List Str
fill v [] = []
fill v (x ∷ xs) = v ∷ fill v xs

-- The loop of `ReplaceValues`.
unfoldable pub replace_keys : Dict Str → Bool → List Str → Values → Result Values
replace_keys values required [] parsed = ok parsed
replace_keys values required (key ∷ names) parsed = elim (lookup key parsed) [
  | none ↦
      if required
      then err (failure (codes "replacement target is missing: " ++ key))
      else replace_keys values required names parsed
  | some items ↦
      replace_keys values required names (put key (fill (value_at key values) items) parsed)
]

-- The loop of `ExistingValues`.
unfoldable pub existing_keys : Values → Dict Str → Dict Str
existing_keys parsed [] = []
existing_keys parsed ((key, value) ∷ values) = elim (lookup key parsed) [
  | none ↦ existing_keys parsed values
  | some items ↦ (key, value) ∷ existing_keys parsed values
]

-- `http.Header.Get` for a name in canonical form.
unfoldable pub get_header : Str → Headers → Str
get_header name h = elim (lookup name h) [
  | none ↦ []
  | some values ↦ (elim values [ [] ↦ [] | ◌∷◌ v vs ↦ v ])
]

-- `len(r.JSON) > 0 || len(r.Form) > 0`
abbrev pub has_body_rules : Rules → Bool
has_body_rules r = ltb 0 (length r.json) || ltb 0 (length r.form)

-- `kind == "application/json" || strings.HasSuffix(kind, "+json")`
unfoldable pub is_json : Str → Bool
is_json kind = equal kind (codes "application/json") || has_suffix kind (codes "+json")

unfoldable pub or_withheld : Result Str → Str
or_withheld (ok s) = s
or_withheld (err e) = redacted_value

-- The second half of `CaptureBody`, on the sanitized body: the new observed size.
unfoldable pub sanitized_size : Str → Str → ℕ → Bool → ℕ
sanitized_size content sanitized observed truncated =
    if equal content sanitized
    then observed
    else (let omitted = observed - length content in
        length sanitized + (if truncated && omitted == 0 then 1 else omitted))

module _ (go : Platform) where
  invalid_form : {A : Type 0} → Result A
  invalid_form = err (failure (codes "invalid query or form encoding"))

  -- `ReplaceValues`
  unfoldable pub replace_values : Str → Dict Str → Bool → Result Str
  unfolding invalid_form
  replace_values raw values required = elim (go.parse_query raw) [
    | err e ↦ invalid_form
    | ok parsed ↦ (do
      replaced ← replace_keys values required (sorted_keys values) parsed
      ok (go.encode_query replaced))
  ]

  -- `ExistingValues`
  unfoldable pub existing_values : Str → Dict Str → Result (Dict Str)
  unfolding invalid_form
  existing_values raw values = elim (go.parse_query raw) [
    | err e ↦ invalid_form
    | ok parsed ↦ ok (existing_keys parsed values)
  ]

  -- `QueryWithheld`
  unfoldable pub query_withheld : Str → Bool
  query_withheld raw = elim (go.parse_query raw) [
    | err e ↦ false
    | ok values ↦ length values == 1 && (elim (lookup (codes "redacted") values) [
      | none ↦ false
      | some items ↦ (elim items [ [] ↦ false | ◌∷◌ v vs ↦ length vs == 0 && is_redacted v ])
    ])
  ]

  -- `Rules.URL`
  unfoldable pub redact_url : Rules → Str → Str
  redact_url r raw = elim r.query [
    | [] ↦ raw
    | ◌∷◌ q qs ↦ elim (go.parse_url raw) [
      | err e ↦ redacted_value
      | ok parsed ↦ elim (replace_values parsed.raw_query (redactions (q ∷ qs)) false) [
        | err e ↦ go.url_string (record parsed {
          raw_query = go.encode_query ((codes "redacted", redacted_value ∷ []) ∷ []);
        })
        | ok query ↦ go.url_string (record parsed { raw_query = query })
      ]
    ]
  ]

  -- The `switch` of `Body` on the media type.
  unfoldable pub redact_kind : Rules → Str → Str → Str
  redact_kind r content kind =
      if is_json kind
      then elim r.json [
        | [] ↦ content
        | ◌∷◌ p ps ↦ or_withheld (replace_json_body go content (redactions (p ∷ ps)) false)
      ]
      else if equal kind (codes "application/x-www-form-urlencoded")
      then elim r.form [
        | [] ↦ content
        | ◌∷◌ f fs ↦
            if go.utf8_valid content
            then or_withheld (replace_values content (redactions (f ∷ fs)) false)
            else redacted_value
      ]
      else redacted_value

  -- `Rules.Body`
  unfoldable pub redact_body : Rules → Str → Headers → Bool → Str
  redact_body r content headers complete =
      if equal content [] || not (has_body_rules r)
      then content
      else if not complete || not (equal (get_header (codes "Content-Encoding") headers) [])
      then redacted_value
      else redact_kind r content (go.media_type (get_header (codes "Content-Type") headers)).0

  -- `CaptureBody`: the sanitized body, its observed size, and whether it is complete.
  unfoldable pub capture_body : Rules → Str → Headers → ℕ → Bool → Bool → Str × ℕ × Bool
  capture_body r content headers observed truncated complete =
      let sanitized = redact_body r content headers (complete && not truncated) in
      (
        sanitized,
        sanitized_size content sanitized observed truncated,
        (if equal sanitized redacted_value && (has_body_rules r && not (equal content []))
            then false
            else complete),
      )
