-- ===== src/Cli/Redactor/Scrubbed.antt =====
-- What a redactor leaves of a text.
use graybox_core.Cli.Redactor.Forms.{
  LongestFirst, ap_length, sort_by-LongestFirst, append_all-In, append_all-full, In-concat_map,
  collected, new_secret_redactor-forms,
}
use graybox_core.Cli.Redactor.{
  Spellings, lower_percent_escapes, json_string_without_html_escaping, header_forms, marshal_forms,
  plain_forms, secret_forms, longer, SecretRedactor, new_secret_redactor, first_match,
  replace_forms, redact,
}
use graybox_core.Dict.Laws.{In-append}
use graybox_core.Prelude.{
  ℕ, zero, suc, ◌-◌, ◌≤◌, true, false, ◌≡◌, ◌≢◌, inl, inr, refl, sym, ap, List, [], ◌∷◌, ◌++◌, none,
  some, arith, length, drop, drop-length-append, concat_map, Bool-cases, Option-cases,
}
use graybox_core.Sanitize.Redact.{redacted_value}
use graybox_core.Sort.Laws.{In, In-sort_by, sort_by-In}
use graybox_core.Text.Laws.{has_prefix-rest}
use graybox_core.Text.{Str, codes, has_prefix, replace_all}
use mathlib.Core.Path.{subst}

-- The text is passed from left to right: where a form stands, the longest one is replaced by the marker,
-- and a byte is kept only where no form begins.
pub data Scrub (forms : List Str) : Str → Str → Type 0 where
  done : Scrub forms [] []
  kept :
      (c : ℕ) {s t : Str}
      → ((form : Str) → In form forms → has_prefix (c ∷ s) form ≡ false)
      → Scrub forms s t
      → Scrub forms (c ∷ s) (c ∷ t)
  hidden :
      (form : Str) {s t : Str}
      → In form forms
      → ((other : Str)
          → In other forms
          → has_prefix (form ++ s) other ≡ true
          → length other ≤ length form)
      → Scrub forms s t
      → Scrub forms (form ++ s) (redacted_value ++ t)

first_match-none :
    (forms : List Str) (s : Str)
    → first_match forms s ≡ none
    → (form : Str) → In form forms
    → has_prefix s form ≡ false
unfolding first_match
first_match-none [] s h form k = absurd k
first_match-none (f ∷ forms) s h form k = elim (Bool-cases (has_prefix s f)) [
  | inl e ↦ cc (rw (first_match, e) at h)
  | inr e ↦ elim k [ inl p ↦ rw p e | inr m ↦ first_match-none forms s (rw e at h) form m ]
]

some-injective : (a b : Str) → some a ≡ some b → a ≡ b
some-injective a b e = ap (λ o. elim o [ some x ↦ x | none ↦ a ]) e

-- The form that is found is the longest that stands there.
first_match-some :
    (forms : List Str) (s form : Str)
    → LongestFirst forms
    → first_match forms s ≡ some form
    → In form forms
      × (has_prefix s form ≡ true)
      × ((other : Str) → In other forms → has_prefix s other ≡ true → length other ≤ length form)
unfolding first_match
first_match-some [] s form o h = cc
first_match-some (f ∷ forms) s form o h = elim (Bool-cases (has_prefix s f)) [
  | inl e ↦
      let p : f ≡ form = some-injective f form (rw (first_match, e) at h) in
      subst
        (λ g.
          In g (f ∷ forms)
          × (has_prefix s g ≡ true)
          × ((other : Str)
              → In other (f ∷ forms)
              → has_prefix s other ≡ true
              → length other ≤ length g))
        p
        (
          inl refl,
          e,
          λ other k n. elim k [ inl q ↦ ap_length other f q (omega arith) | inr m ↦ o.0 other m ],
        )
  | inr e ↦
      let (m, n, longest) = first_match-some forms s form o.1 (rw (first_match, e) at h) in
      (inr m, n, λ other k q. elim k [ inl p ↦ cc | inr l ↦ longest other l q ])
]

hidden_at :
    (forms : List Str) (form s r t : Str)
    → r ≡ form ++ s
    → In form forms
    → ((other : Str) → In other forms → has_prefix r other ≡ true → length other ≤ length form)
    → Scrub forms s t
    → Scrub forms r (redacted_value ++ t)
hidden_at forms form s r t e m longest rest =
    subst (λ z. Scrub forms z (redacted_value ++ t)) (sym e)
      (hidden form m
        (λ other k h. longest other k (subst (λ z. has_prefix z other ≡ true) (sym e) h)) rest)

rest_after : (c : ℕ) (s form r : Str) → form ≢ [] → c ∷ s ≡ form ++ r → drop (length form - 1) s ≡ r
rest_after c s [] r n e = absurd (n refl)
rest_after c s (d ∷ form) r n e =
    let tail : s ≡ form ++ r = ap (drop 1) e in
    let k : suc (length form) - 1 ≡ length form = omega arith in
    rw (k, tail) (drop-length-append form r)

-- Behind the bytes of a match that are still to be passed over, the text is scrubbed.
replace_forms-Scrub :
    (forms : List Str)
    → LongestFirst forms
    → ¬ In [] forms
    → (skip : ℕ) (s : Str) → Scrub forms (drop skip s) (replace_forms forms skip s)
unfolding replace_forms
replace_forms-Scrub forms o n zero [] = done
replace_forms-Scrub forms o n (suc skip) [] = done
replace_forms-Scrub forms o n (suc skip) (c ∷ s) = replace_forms-Scrub forms o n skip s
replace_forms-Scrub forms o n zero (c ∷ s) = elim (Option-cases (first_match forms (c ∷ s))) [
  | inl e ↦
      rw (replace_forms, e)
        (kept c (first_match-none forms (c ∷ s) e) (replace_forms-Scrub forms o n zero s))
  | inr (form, e) ↦
      rw (replace_forms, e)
        (let (m, p, longest) = first_match-some forms (c ∷ s) form o e in
          let (r, q) = has_prefix-rest (c ∷ s) form p in
          let full : form ≢ [] = λ k. n (subst (λ f. In f forms) k m) in
          hidden_at forms form r (c ∷ s) (replace_forms forms (length form - 1) s) q m longest (
            subst (λ z. Scrub forms z (replace_forms forms (length form - 1) s))
              (rest_after c s form r full q) (replace_forms-Scrub forms o n (length form - 1) s)))
]

Scrub-nothing : (s : Str) → Scrub [] s s
Scrub-nothing [] = done
Scrub-nothing (c ∷ s) = kept c (λ form m. absurd m) (Scrub-nothing s)

redact_forms :
    (r : SecretRedactor) (text : Str)
    → LongestFirst r.forms
    → ¬ In [] r.forms
    → Scrub r.forms text (redact r text)
unfolding redact
redact_forms r text o n = by_forms r.forms o n
  where
    by_forms :
        (fs : List Str)
        → LongestFirst fs
        → ¬ In [] fs
        → Scrub fs text
            (elim fs [ [] ↦ text | ◌∷◌ form forms ↦ replace_forms (form ∷ forms) zero text ])
    by_forms [] o n = Scrub-nothing text
    by_forms (f ∷ fs) o n = replace_forms-Scrub (f ∷ fs) o n zero text

In-sixth :
    (x a b c d e : Str) (before after last : List Str)
    → In x ((before ++ (a ∷ b ∷ c ∷ d ∷ e ∷ x ∷ after)) ++ last)
In-sixth x a b c d e before after last =
    let middle : List Str = a ∷ b ∷ c ∷ d ∷ e ∷ x ∷ after in
    (In-append x (before ++ middle) last).1
      (inl ((In-append x before middle).1 (inr (inr (inr (inr (inr (inr (inl refl)))))))))

-- A secret is one of its own spellings.
secret-In : (go : Spellings) (secret : Str) → In secret (secret_forms go secret)
unfolding secret_forms
secret-In go secret =
    In-sixth secret (go.query_escape secret) (lower_percent_escapes (go.query_escape secret))
      (go.path_escape secret) (lower_percent_escapes (go.path_escape secret))
      (replace_all (replace_all secret (codes "~") (codes "~0")) (codes "/") (codes "~1"))
      (header_forms go secret) (marshal_forms go (go.marshal secret))
      (plain_forms go (json_string_without_html_escaping go secret))

-- Every secret that is not empty, and every spelling of it, is one of the forms that the redactor knows,
-- and of any text it leaves only what lies outside of them: from left to right the longest form at a place is
-- replaced by the marker, and where a byte is kept no form begins.
pub redact-Scrub :
    (go : Spellings) (secrets : List Str) (text : Str)
    → ((secret : Str)
        → In secret secrets
        → secret ≢ []
        → In secret (new_secret_redactor go secrets).forms)
      × ((secret form : Str)
          → In secret secrets
          → In form (secret_forms go secret)
          → form ≢ []
          → In form (new_secret_redactor go secrets).forms)
      × Scrub
          (new_secret_redactor go secrets).forms
          text
          (redact (new_secret_redactor go secrets) text)
unfolding redact
redact-Scrub go secrets text =
    let found = collected go secrets in
    let all = new_secret_redactor-forms go secrets in
    let spelled : (secret form : Str)
        → In secret secrets
        → In form (secret_forms go secret)
        → form ≢ []
        → In form (new_secret_redactor go secrets).forms =
      λ secret form m k n. rw all (
        sort_by-In longer form found (
          append_all-In form (concat_map (secret_forms go) secrets) [] n
            (inl (In-concat_map (secret_forms go) secrets secret form m k)))) in
    (
      λ secret m n. spelled secret secret m (secret-In go secret) n,
      spelled,
      redact_forms (new_secret_redactor go secrets) text (rw all (sort_by-LongestFirst found)) (
          rw all (λ m.
            append_all-full (concat_map (secret_forms go) secrets) [] (λ x. x)
              (In-sort_by longer [] found m))),
    )
