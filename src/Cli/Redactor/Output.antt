-- ===== src/Cli/Redactor/Output.antt =====
-- internal/cli/secret_headers.go: the redaction of decoded values (redactData) and of the JSON that is
-- written (redactJSON).
pub mod Tokens
pub mod Rewritten
use graybox_core.Cli.Redactor.{Spellings, json_string_without_html_escaping, SecretRedactor, redact}
use graybox_core.Failure.{Error, failure, wrap, Result, ok, err, ◌>>=◌}
use graybox_core.Json.{
  Json, null, boolean, number, string, array, object, Items, nil, cons, Fields, end, field,
}
use graybox_core.Prelude.{
  ℕ, zero, suc, Bool, true, false, not, ◌&&◌, ◌||◌, List, [], ◌∷◌, ◌++◌, ◌==◌, if◌then◌else◌,
  length,
}
use graybox_core.Sanitize.Redact.{redacted_value}
use graybox_core.Text.{Str, codes, equal, trim_space}

-- `output[key] = value` on a map of decoded values.
unfoldable pub set_field : Str → Json → Fields → Fields
set_field k v end = field k v end
set_field k v (field j w fs) = if equal j k then field k v fs else field j w (set_field k v fs)

-- What `json.Valid` and `json.Unmarshal` into a string answer.
pub record StringReader : Type 0 where
  pub valid : Str → Bool
  pub unmarshal : Str → Result Str

-- The bytes of a string from behind its opening quote to the closing one, and those behind.
unfoldable pub read_string : Str → Result (Str × Str)
read_string [] = err (failure (codes "unterminated JSON string"))
read_string (c ∷ []) =
    if c == b'\\'
    then err (failure (codes "unterminated JSON escape"))
    else if c == b'"'
    then ok (c ∷ [], [])
    else err (failure (codes "unterminated JSON string"))
read_string (c ∷ d ∷ s) = elim (c == b'\\') [
  | true ↦ (do (raw, rest) ← read_string s; ok (c ∷ d ∷ raw, rest))
  | false ↦ elim (c == b'"') [
    | true ↦ ok (c ∷ [], d ∷ s)
    | false ↦ (do (raw, rest) ← read_string (d ∷ s); ok (c ∷ raw, rest))
  ]
]

abbrev json_space : ℕ → Bool
json_space c = c == b' ' || c == 9 || c == 13 || c == 10

-- Is the next byte that is no white space a colon?
unfoldable pub before_colon : Str → Bool
before_colon [] = false
before_colon (c ∷ s) = if json_space c then before_colon s else c == b':'

module _ (go : Spellings) (json : StringReader) (r : SecretRedactor) where
  -- A string of the text that is no key.
  unfoldable pub redact_string : Str → Result Str
  redact_string raw = elim (json.unmarshal raw) [
    | err e ↦ err (wrap (codes "decode JSON string for redaction") e)
    | ok decoded ↦
        if equal (redact r decoded) decoded
        then ok raw
        else (elim (json_string_without_html_escaping go (redact r decoded)) [
          | err e ↦ err (wrap (codes "encode redacted JSON string") e)
          | ok encoded ↦ ok (b'"' ∷ encoded ++ b'"' ∷ [])
        ])
  ]

  -- What is written for a string, by what stands behind it.
  unfoldable pub write_string : Str → Str → Result Str
  unfolding redact_string
  write_string raw rest = if before_colon rest then ok raw else redact_string raw

  -- The loop of `redactJSON`: `skip` bytes of a string are still to be passed over.
  unfoldable pub redact_bytes : ℕ → Str → Result Str
  unfolding write_string
  redact_bytes skip [] = ok []
  redact_bytes (suc skip) (c ∷ s) = redact_bytes skip s
  redact_bytes zero (c ∷ s) = elim (c == b'"') [
    | false ↦ (do rest ← redact_bytes zero s; ok (c ∷ rest))
    | true ↦ (do
      (raw, after) ← read_string s
      written ← write_string (c ∷ raw) after
      rest ← redact_bytes (length raw) s
      ok (written ++ rest))
  ]

  -- `redactJSON`
  unfoldable pub redact_json : Str → Result Str
  unfolding redact_bytes
  redact_json text = elim r.forms [
    | [] ↦ ok text
    | ◌∷◌ form forms ↦
        if not (json.valid (trim_space text))
        then err (failure (codes "cannot redact invalid JSON output"))
        else redact_bytes zero text
  ]
