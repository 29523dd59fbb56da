-- ===== src/Cli/Redactor/Output/Tokens.antt =====
-- The redaction of written JSON, token by token.
use graybox_core.Cli.Redactor.Output.{
  StringReader, read_string, before_colon, redact_string, write_string, redact_bytes, redact_json,
}
use graybox_core.Cli.Redactor.Encoded.{in_quotes}
use graybox_core.Cli.Redactor.Forms.{forms_branch}
use graybox_core.Cli.Redactor.{Spellings, SecretRedactor}
use graybox_core.Failure.{Result, ok, ◌>>=◌}
use graybox_core.Prelude.{
  ℕ, zero, true, false, ◌≡◌, ◌≢◌, inl, inr, refl, ◌∙◌, List, [], ◌∷◌, ◌++◌, ◌==◌, length, All,
  Bool-cases, if◌then◌else◌,
}
use graybox_core.Text.{Str, trim_space}
use mathlib.Core.List.{append_assoc}

-- A byte outside of strings, or a string with the bytes between its quotes.
pub data Token : Type 0 where
  plain : ℕ → Token
  quoted : Str → Token

-- Each backslash escapes the byte behind it, and no other byte is a quote.
abbrev pub IsEscaped : Str → Type 0
IsEscaped [] = Unit
IsEscaped (c ∷ []) = ((c == b'\\') ≡ false) × ((c == b'"') ≡ false)
IsEscaped (c ∷ d ∷ s) = elim (c == b'\\') [
  | true ↦ IsEscaped s
  | false ↦ ((c == b'"') ≡ false) × IsEscaped (d ∷ s)
]

abbrev pub IsToken : Token → Type 0
IsToken (plain c) = (c == b'"') ≡ false
IsToken (quoted s) = IsEscaped s

abbrev pub token_text : List Token → Str
token_text [] = []
token_text (plain c ∷ ts) = c ∷ token_text ts
token_text (quoted s ∷ ts) = in_quotes s ++ token_text ts

module _ (go : Spellings) (json : StringReader) (r : SecretRedactor) where
  -- Each string that no colon follows is redacted; all else is kept.
  abbrev pub redact_tokens : List Token → Result Str
  redact_tokens [] = ok []
  redact_tokens (plain c ∷ ts) = do rest ← redact_tokens ts; ok (c ∷ rest)
  redact_tokens (quoted s ∷ ts) = do
    written ←
        if before_colon (token_text ts)
        then ok (in_quotes s)
        else redact_string go json r (in_quotes s)
    rest ← redact_tokens ts
    ok (written ++ rest)

module _ (c d : ℕ) (s : Str) where
  read_string_escape :
      (c == b'\\') ≡ true
      → read_string (c ∷ d ∷ s) ≡ (do (raw, rest) ← read_string s; ok (c ∷ d ∷ raw, rest))
  unfolding read_string
  read_string_escape e = rw (read_string, e)

  read_string_byte :
      (c == b'\\') ≡ false
      → (c == b'"') ≡ false
      → read_string (c ∷ d ∷ s) ≡ (do (raw, rest) ← read_string (d ∷ s); ok (c ∷ raw, rest))
  unfolding read_string
  read_string_byte e q = rw (read_string, e, q)

  IsEscaped-escape : (c == b'\\') ≡ true → IsEscaped (c ∷ d ∷ s) → IsEscaped s
  IsEscaped-escape e h = rw (IsEscaped, e) at h

  IsEscaped-byte :
      (c == b'\\') ≡ false → IsEscaped (c ∷ d ∷ s) → ((c == b'"') ≡ false) × IsEscaped (d ∷ s)
  IsEscaped-byte e h = rw (IsEscaped, e) at h

read_string-escaped :
    (s rest : Str) → IsEscaped s → read_string (s ++ b'"' ∷ rest) ≡ ok (s ++ b'"' ∷ [], rest)
unfolding read_string
read_string-escaped [] [] h = refl
read_string-escaped [] (d ∷ rest) h = refl
read_string-escaped (c ∷ []) rest h =
    rw (read_string_byte c b'"' rest h.0 h.1, read_string-escaped [] rest tt)
read_string-escaped (c ∷ d ∷ s) rest h = elim (Bool-cases (c == b'\\')) [
  | inl e ↦ rw (
    read_string_escape c d (s ++ b'"' ∷ rest) e,
    read_string-escaped s rest (IsEscaped-escape c d s e h),
  )
  | inr e ↦
      let (q, k) = IsEscaped-byte c d s e h in
      rw (read_string_byte c d (s ++ b'"' ∷ rest) e q, read_string-escaped (d ∷ s) rest k)
]

module _ (go : Spellings) (json : StringReader) (r : SecretRedactor) where
  redact_bytes-skip :
      (a b : Str) → redact_bytes go json r (length a) (a ++ b) ≡ redact_bytes go json r zero b
  unfolding redact_bytes
  redact_bytes-skip [] b = refl
  redact_bytes-skip (c ∷ a) b = redact_bytes-skip a b

  redact_bytes-tokens :
      (ts : List Token)
      → All IsToken ts
      → redact_bytes go json r zero (token_text ts) ≡ redact_tokens go json r ts
  unfolding redact_bytes write_string
  redact_bytes-tokens [] h = refl
  redact_bytes-tokens (plain c ∷ ts) h = rw (redact_bytes, h.0, redact_bytes-tokens ts h.1)
  redact_bytes-tokens (quoted s ∷ ts) h =
      let close : Str = b'"' ∷ [] in
      rw (append_assoc s close (token_text ts), read_string-escaped s (token_text ts) h.0)
        (rw (
          ← append_assoc s close (token_text ts),
          redact_bytes-skip (s ++ close) (token_text ts),
          redact_bytes-tokens ts h.1,
        ))

  -- Valid JSON output is redacted token by token.
  pub redact_json-tokens :
      (ts : List Token)
      → r.forms ≢ []
      → json.valid (trim_space (token_text ts)) ≡ true
      → All IsToken ts
      → redact_json go json r (token_text ts) ≡ redact_tokens go json r ts
  unfolding redact_json
  redact_json-tokens ts n v h =
      forms_branch r.forms (ok (token_text ts)) _ n ∙ rw v (redact_bytes-tokens ts h)
