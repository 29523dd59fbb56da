-- ===== src/Cli/Redactor/Output/Rewritten.antt =====
-- What the redaction of written JSON makes of it, described apart from the code.
use graybox_core.Cli.Redactor.Encoded.{in_quotes, json_string-encode}
use graybox_core.Cli.Redactor.Output.Tokens.{
  Token, plain, quoted, IsToken, token_text, redact_tokens, redact_json-tokens,
}
use graybox_core.Cli.Redactor.Output.{
  StringReader, json_space, before_colon, redact_string, redact_json,
}
use graybox_core.Cli.Redactor.{Spellings, SecretRedactor, redact}
use graybox_core.Failure.{ok}
use graybox_core.Prelude.{
  ℕ, true, false, ◌≡◌, ◌≢◌, ◌⊎◌, inl, inr, refl, sym, ap, ◌∙◌, List, [], ◌∷◌, ◌++◌, arith, All,
  Bool-cases,
}
use graybox_core.Text.Laws.{equal_iff}
use graybox_core.Text.{Str, equal, trim_space}

abbrev pub IsBlank : ℕ → Type 0
IsBlank c = (c ≡ b' ') ⊎ (c ≡ 9) ⊎ (c ≡ 10) ⊎ (c ≡ 13)

-- A text that begins with a colon, white space before it left out.
abbrev pub FollowedByColon : Str → Type 0
FollowedByColon text = (blanks rest : Str) × (text ≡ blanks ++ b':' ∷ rest) × All IsBlank blanks

before_colon-blanks :
    (blanks rest : Str) → All IsBlank blanks → before_colon (blanks ++ b':' ∷ rest) ≡ true
unfolding before_colon
before_colon-blanks [] rest h = refl
before_colon-blanks (c ∷ blanks) rest h = ground (arith, h.0, before_colon-blanks blanks rest h.1)

json_space-IsBlank : (c : ℕ) → json_space c ≡ true → IsBlank c
json_space-IsBlank c h = ground arith

before_colon-here : (s : Str) → before_colon s ≡ true → FollowedByColon s
unfolding before_colon
before_colon-here [] h = cc
before_colon-here (c ∷ s) h = elim (Bool-cases (json_space c)) [
  | inl e ↦
      let (blanks, rest, p, b) = before_colon-here s (rw e at h) in
      (c ∷ blanks, rest, ap (λ t. c ∷ t) p, (json_space-IsBlank c e, b))
  | inr e ↦ let colon : c ≡ b':' = ground arith in ([], s, rw colon refl, tt)
]

not_before_colon : (s : Str) → before_colon s ≡ false → ¬ FollowedByColon s
not_before_colon s e (blanks, rest, p, b) =
    cc (ap before_colon p ∙ before_colon-blanks blanks rest b, e)

module _ (go : Spellings) (json : StringReader) (r : SecretRedactor) where
  -- A string can be read, and the encoder writes what is left of it so that it is read back.
  abbrev pub IsReadable : Token → Type 0
  IsReadable (plain c) = Unit
  IsReadable (quoted s) =
      (decoded body : Str) × (json.unmarshal (in_quotes s) ≡ ok decoded)
      × (go.encode (redact r decoded) ≡ ok (in_quotes body ++ 10 ∷ []))
      × (json.unmarshal (in_quotes body) ≡ ok (redact r decoded))

  -- A string in whose place another one is written that reads as its redaction; the same one, if it
  -- holds nothing to redact.
  abbrev pub IsRedacted : Str → Str → Type 0
  IsRedacted s written =
      (decoded : Str) × (json.unmarshal (in_quotes s) ≡ ok decoded)
      × (json.unmarshal (in_quotes written) ≡ ok (redact r decoded))
      × (redact r decoded ≡ decoded → written ≡ s)

  -- A text that stands for given tokens: all is kept but strings that no colon follows, which are
  -- redacted.
  pub data Rewrites : List Token → Str → Type 0 where
    done : Rewrites [] []
    kept :
        {ts : List Token} {out : Str} (c : ℕ) → Rewrites ts out → Rewrites (plain c ∷ ts) (c ∷ out)
    key :
        {ts : List Token} {out : Str} (s : Str)
        → FollowedByColon (token_text ts)
        → Rewrites ts out
        → Rewrites (quoted s ∷ ts) (in_quotes s ++ out)
    value :
        {ts : List Token} {out : Str} (s written : Str)
        → ¬ FollowedByColon (token_text ts)
        → IsRedacted s written
        → Rewrites ts out
        → Rewrites (quoted s ∷ ts) (in_quotes written ++ out)

  redact_string-IsRedacted :
      (s : Str)
      → IsReadable (quoted s)
      → (written : Str) × (redact_string go json r (in_quotes s) ≡ ok (in_quotes written))
        × IsRedacted s written
  unfolding redact_string
  redact_string-IsRedacted s (decoded, body, u, e, v) =
      elim (Bool-cases (equal (redact r decoded) decoded)) [
        | inl k ↦ (
          s,
          rw (redact_string, u, k) refl,
          (decoded, u, u ∙ ap ok (sym ((equal_iff _ _).0 k)), λ q. refl),
        )
        | inr k ↦ (
          body,
          rw (redact_string, u, k, json_string-encode go (redact r decoded) body e) refl,
          (decoded, u, v, λ q. cc (k, (equal_iff _ _).1 q)),
        )
      ]

  redact_tokens-Rewrites :
      (ts : List Token)
      → All IsReadable ts
      → (out : Str) × (redact_tokens go json r ts ≡ ok out) × Rewrites ts out
  redact_tokens-Rewrites [] h = ([], refl, done)
  redact_tokens-Rewrites (plain c ∷ ts) h =
      let (out, e, w) = redact_tokens-Rewrites ts h.1 in (c ∷ out, rw e refl, kept c w)
  redact_tokens-Rewrites (quoted s ∷ ts) h =
      let (out, e, w) = redact_tokens-Rewrites ts h.1 in
      elim (Bool-cases (before_colon (token_text ts))) [
        | inl k ↦ (in_quotes s ++ out, rw (k, e) refl, key s (before_colon-here _ k) w)
        | inr k ↦
            let (written, f, i) = redact_string-IsRedacted s h.0 in
            (
              in_quotes written ++ out,
              rw (k, f, e) refl,
              value s written (not_before_colon _ k) i w,
            )
      ]

  -- Valid JSON output, given as its bytes outside of strings and its strings, is written again, if the
  -- strings can be read and what the encoder writes for their redactions reads back: in place of every
  -- string that no colon follows stands one that reads as its redaction, or the string itself where
  -- nothing is redacted in it; keys and all bytes outside of strings are kept.
  pub redact_json-Rewrites :
      (ts : List Token)
      → r.forms ≢ []
      → json.valid (trim_space (token_text ts)) ≡ true
      → All IsToken ts
      → All IsReadable ts
      → (out : Str) × (redact_json go json r (token_text ts) ≡ ok out) × Rewrites ts out
  redact_json-Rewrites ts n v h k =
      let (out, e, w) = redact_tokens-Rewrites ts k in
      (out, redact_json-tokens go json r ts n v h ∙ e, w)
