-- ===== src/Cli/Config/Secrets.antt =====
-- What a redactor knows of the values that a configuration takes from the environment.
use graybox_core.Cli.Config.{
  Reference, Resolution, Group, headers_group, json_group, query_group, form_group, Environment,
  put_resolved, with_value, with_reference, resolve_expression, resolve_fields, resolve_group,
  resolve_groups, resolved, resolve_request_config, environment_reference, ordered_keys,
  nothing_resolved, ReplayConfig, Config,
}
use graybox_core.Cli.SecretHeaders.{valid_http_header_value, parse_secret_header_mappings}
use graybox_core.Dict.Laws.{In-append}
use graybox_core.Dict.{Dict, put}
use graybox_core.Failure.{Error, Result-cases}
use graybox_core.Prelude.{
  true, ◌≡◌, inl, inr, refl, List, [], ◌∷◌, ◌++◌, Option, none, some, All, Bool-cases, Option-cases,
  either_branch,
}
use graybox_core.Replay.Headers.{canonical}
use graybox_core.Replay.Runner.{unless_err}
use graybox_core.Sort.Laws.{In}
use graybox_core.Text.{Str, equal}

-- Every value under the keys is a secret.
abbrev pub AreSecret : List Str → Dict Str → Type 0
AreSecret secrets d = All (λ e. In e.1 secrets) d

-- Every value that goes into a request is a secret, and the headers can carry it.
abbrev pub IsKnown : Resolution → Type 0
IsKnown s =
    All (λ e. All (λ v. In v s.secrets × (valid_http_header_value v ≡ true)) e.1) s.headers
    × AreSecret s.secrets s.replacement.json
    × AreSecret s.secrets s.replacement.query
    × AreSecret s.secrets s.replacement.form

All-map :
    {A : Type 0} (P Q : A → Type 0) (xs : List A) → ((a : A) → P a → Q a) → All P xs → All Q xs
All-map P Q [] f h = tt
All-map P Q (x ∷ xs) f h = (f x h.0, All-map P Q xs f h.1)

All-put :
    {V : Type 0} (P : V → Type 0) (k : Str) (v : V) (d : Dict V)
    → P v
    → All (λ e. P e.1) d
    → All (λ e. P e.1) (put k v d)
unfolding put
All-put P k v [] p h = (p, tt)
All-put P k v ((j, w) ∷ d) p h =
    either_branch (λ (m : Dict _). All (λ e. P e.1) m) (equal j k) ((k, v) ∷ d) ((j, w) ∷ put k v d)
      (p, h.1) (h.0, All-put P k v d p h.1)

-- More secrets hide no less.
more-IsKnown :
    (s : Resolution) (more : List Str)
    → IsKnown s
    → IsKnown (record s { secrets = s.secrets ++ more })
more-IsKnown s more h =
    let grows : (v : Str) → In v s.secrets → In v (s.secrets ++ more) =
      λ v m. (In-append v s.secrets more).1 (inl m) in
    let all : (d : Dict Str) → AreSecret s.secrets d → AreSecret (s.secrets ++ more) d = λ d k.
      All-map (λ e. In e.1 s.secrets) (λ e. In e.1 (s.secrets ++ more)) d (λ e m. grows e.1 m) k in
    (
      All-map (λ e. All (λ v. In v s.secrets × (valid_http_header_value v ≡ true)) e.1)
          (λ e. All (λ v. In v (s.secrets ++ more) × (valid_http_header_value v ≡ true)) e.1)
          s.headers
          (λ e k.
            All-map (λ v. In v s.secrets × (valid_http_header_value v ≡ true))
              (λ v. In v (s.secrets ++ more) × (valid_http_header_value v ≡ true)) e.1
              (λ v m. (grows v m.0, m.1)) k)
          h.0,
      all s.replacement.json h.1,
      all s.replacement.query h.2,
      all s.replacement.form h.3,
    )

put_resolved-IsKnown :
    (group : Group) (field text : Str) (s : Resolution)
    → In text s.secrets
    → IsKnown s
    → IsKnown (put_resolved group field text s).0
unfolding put_resolved
put_resolved-IsKnown headers_group field text s m h =
    elim (Bool-cases (valid_http_header_value text)) [
      | inl e ↦
          rw (put_resolved, e)
            (
              All-put (λ vs. All (λ v. In v s.secrets × (valid_http_header_value v ≡ true)) vs)
                  (canonical field) (text ∷ []) s.headers ((m, e), tt) h.0,
              h.1,
              h.2,
              h.3,
            )
      | inr e ↦ rw (put_resolved, e) h
    ]
put_resolved-IsKnown json_group field text s m h =
    (h.0, All-put (λ v. In v s.secrets) field text s.replacement.json m h.1, h.2, h.3)
put_resolved-IsKnown query_group field text s m h =
    (h.0, h.1, All-put (λ v. In v s.secrets) field text s.replacement.query m h.2, h.3)
put_resolved-IsKnown form_group field text s m h =
    (h.0, h.1, h.2, All-put (λ v. In v s.secrets) field text s.replacement.form m h.3)

with_value-IsKnown :
    (group : Group) (field : Str) (reference : Reference) (value : Str) (s : Resolution)
    → IsKnown s
    → IsKnown (with_value group field reference value s).0
unfolding with_value
with_value-IsKnown group field reference value s h =
    let text = reference.prefix ++ value ++ reference.suffix in
    put_resolved-IsKnown group field text (record s { secrets = s.secrets ++ value ∷ text ∷ [] })
      ((In-append text s.secrets (value ∷ text ∷ [])).1 (inr (inr (inl refl))))
      (more-IsKnown s (value ∷ text ∷ []) h)

-- A step or the rest behind it keeps what both keep.
unless_err-IsKnown :
    (r : Resolution × Option Error) (rest : Resolution → Resolution × Option Error)
    → IsKnown r.0
    → ((s : Resolution) → IsKnown s → IsKnown (rest s).0)
    → IsKnown (unless_err r rest).0
unless_err-IsKnown (s, none) rest h k = k s h
unless_err-IsKnown (s, some e) rest h k = h

module _ (env : Environment) where
  resolve_expression-IsKnown :
      (group : Group) (field expression : Str) (s : Resolution)
      → IsKnown s
      → IsKnown (resolve_expression env group field expression s).0
  unfolding resolve_expression
  resolve_expression-IsKnown group field expression s h =
      elim (Result-cases (environment_reference expression)) [
        | inr (e, n) ↦ rw (resolve_expression, n) h
        | inl (reference, n) ↦
            rw (resolve_expression, n)
              (elim (Option-cases (env reference.name)) [
                | inl k ↦ rw (with_reference, k) h
                | inr (value, k) ↦
                    rw (with_reference, k)
                      (either_branch (λ (p : Resolution × Option Error). IsKnown p.0)
                        (equal value []) _ _ h (with_value-IsKnown group field reference value s h))
              ])
      ]

  resolve_fields-IsKnown :
      (group : Group) (source : Dict Str) (fields : List Str) (s : Resolution)
      → IsKnown s
      → IsKnown (resolve_fields env group source fields s).0
  unfolding resolve_fields
  resolve_fields-IsKnown group source [] s h = h
  resolve_fields-IsKnown group source (field ∷ fields) s h =
      unless_err-IsKnown _ (resolve_fields env group source fields)
        (resolve_expression-IsKnown group field _ s h)
        (λ t k. resolve_fields-IsKnown group source fields t k)

  resolve_group-IsKnown :
      (group : Group) (source : Dict Str) (s : Resolution)
      → IsKnown s
      → IsKnown (resolve_group env group source s).0
  unfolding resolve_group
  resolve_group-IsKnown group source s h =
      resolve_fields-IsKnown group source (ordered_keys source) s h

  resolve_groups-IsKnown :
      (expressions : Dict Str) (replay : ReplayConfig)
      → IsKnown (resolve_groups env expressions replay).0
  unfolding resolve_groups
  resolve_groups-IsKnown expressions replay =
      let form : Resolution → Resolution × Option Error =
        resolve_group env form_group replay.form in
      let query : Resolution → Resolution × Option Error =
        λ s. unless_err (resolve_group env query_group replay.query s) form in
      let json : Resolution → Resolution × Option Error =
        λ s. unless_err (resolve_group env json_group replay.json s) query in
      unless_err-IsKnown (resolve_group env headers_group expressions nothing_resolved) json
        (resolve_group-IsKnown headers_group expressions nothing_resolved (tt, tt, tt, tt))
        (λ s h.
          unless_err-IsKnown (resolve_group env json_group replay.json s) query
            (resolve_group-IsKnown json_group replay.json s h)
            (λ s h.
              unless_err-IsKnown (resolve_group env query_group replay.query s) form
                (resolve_group-IsKnown query_group replay.query s h)
                (λ s h. resolve_group-IsKnown form_group replay.form s h)))

resolved-IsKnown : (r : Resolution × Option Error) → IsKnown r.0 → IsKnown (resolved r).0
unfolding resolved
resolved-IsKnown (s, none) h = h
resolved-IsKnown (s, some e) h = (tt, tt, tt, tt)

-- Whatever a configuration and the flags put into a request, headers and replaced fields, is among the
-- secrets that the redactor is built of, and a header value is one that a header can carry.
pub resolve_request_config-IsKnown :
    (env : Environment) (cfg : Config) (flags : List Str)
    → IsKnown (resolve_request_config env cfg flags).0
unfolding resolve_request_config
resolve_request_config-IsKnown env cfg flags =
    elim (Result-cases (parse_secret_header_mappings flags)) [
      | inr (e, n) ↦ rw (resolve_request_config, n) (tt, tt, tt, tt)
      | inl (mappings, n) ↦
          rw (resolve_request_config, n)
            (resolved-IsKnown (resolve_groups env _ cfg.replay)
              (resolve_groups-IsKnown env _ cfg.replay))
    ]
