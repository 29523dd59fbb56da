-- ===== src/Replay/Replacements/Selected.antt =====
-- What `Applicable` selects can be replaced.
use graybox_core.Dict.{Dict}
use graybox_core.Failure.{Yields, Yields-if, Yields-bind, Result, ok, err, Result-cases}
use graybox_core.Platform.{Platform}
use graybox_core.Prelude.{◌+◌, true, not, ◌||◌, ◌≡◌, ◌⊎◌, inl, inr, refl, [], ltb, ◌==◌, length}
use graybox_core.Replay.Replacements.{
  Outgoing, Replacements, matched_query, matched_body, select_body, applicable,
}
use graybox_core.Sanitize.Capture.Existing.{replace_values-existing_values}
use graybox_core.Sanitize.Capture.{
  get_header, query_withheld, is_json, existing_values, replace_values,
}
use graybox_core.Sanitize.Fields.{existing_json}
use graybox_core.Text.{Str, codes, equal}

module _ (go : Platform) where
  -- Values that the text takes, or none at all.
  abbrev pub Replaceable : Str → Dict Str → Type 0
  Replaceable raw values =
      (values ≡ []) ⊎ ((encoded : Str) × (replace_values go raw values true ≡ ok encoded))

  abbrev Sendable : Outgoing → Str → Replacements → Type 0
  Sendable request content m =
      Replaceable request.url.raw_query m.query × Replaceable content m.form

  existing_values-Yields :
      (raw : Str) (values : Dict Str) → Yields (Replaceable raw) (existing_values go raw values)
  existing_values-Yields raw values = elim (Result-cases (existing_values go raw values)) [
    | inl (matched, e) ↦ rw e (inr (replace_values-existing_values go raw values matched e))
    | inr (x, e) ↦ rw e tt
  ]

  matched_query-Yields :
      (r : Replacements) (request : Outgoing)
      → Yields (Replaceable request.url.raw_query) (matched_query go r request)
  unfolding matched_query
  matched_query-Yields r request =
      Yields-if (Replaceable request.url.raw_query) (length r.query == 0) _ _ (inl refl) (
        Yields-if (Replaceable request.url.raw_query) (query_withheld go request.url.raw_query) _ _
          tt (existing_values-Yields request.url.raw_query r.query))

  matched_body-Yields :
      (r : Replacements) (request : Outgoing) (query : Dict Str) (content kind : Str)
      → Replaceable request.url.raw_query query
      → Yields (Sendable request content) (matched_body go r query content kind)
  unfolding matched_body
  matched_body-Yields r request query content kind h =
      Yields-if (Sendable request content) (is_json kind) _ _
        (Yields-if (Sendable request content) (ltb 0 (length r.json)) _ _
          (Yields-bind (λ m. Unit {0}) (Sendable request content) (existing_json go content r.json)
            _ (any (existing_json go content r.json)) (λ m u. (h, inl refl)))
          (h, inl refl))
        (Yields-if (Sendable request content)
          (equal kind (codes "application/x-www-form-urlencoded")) _ _
          (Yields-if (Sendable request content) (ltb 0 (length r.form)) _ _
            (Yields-if (Sendable request content) (go.utf8_valid content) _ _
              (Yields-bind (Replaceable content) (Sendable request content)
                (existing_values go content r.form) _ (existing_values-Yields content r.form)
                (λ m p. (h, p)))
              tt)
            (h, inl refl))
          tt)
    where
      any : (m : Result (Dict Str)) → Yields (λ m. Unit {0}) m
      any (ok m) = tt
      any (err e) = tt

  select_body-Yields :
      (r : Replacements) (request : Outgoing) (content : Str) (query : Dict Str)
      → Replaceable request.url.raw_query query
      → Yields (Sendable request content) (select_body go r request content query)
  unfolding select_body
  select_body-Yields r request content query h =
      Yields-if (Sendable request content) (equal content [] || length r.json + length r.form == 0)
        _ _ (h, inl refl)
        (Yields-if (Sendable request content)
          (not (equal (get_header (codes "Content-Encoding") request.header) [])) _ _ tt
          (Yields-if (Sendable request content)
            (not (go.media_type (get_header (codes "Content-Type") request.header)).1) _ _ tt
            (matched_body-Yields r request query content
              (go.media_type (get_header (codes "Content-Type") request.header)).0 h)))

-- The query and form values that `Applicable` selects for a request can be put into its query and
-- its body, although the replay requires every one of them to be there.
pub applicable-replace_values :
    (go : Platform) (r matched : Replacements) (request : Outgoing) (content : Str)
    → applicable go r request content ≡ ok matched
    → Replaceable go request.url.raw_query matched.query × Replaceable go content matched.form
unfolding applicable
applicable-replace_values go r matched request content e = rw e at (
    Yields-bind (Replaceable go request.url.raw_query) (Sendable go request content)
      (matched_query go r request) (select_body go r request content)
      (matched_query-Yields go r request)
      (λ query h. select_body-Yields go r request content query h))
