-- ===== src/Replay/Replacements/Applied/Unmarked.antt =====
-- What `apply` lets a replay send.
use graybox_core.Failure.{Yields, Yields-any, Yields-if, Yields-bind, ok}
use graybox_core.Platform.{Platform}
use graybox_core.Prelude.{
  ◌+◌, true, ◌≡◌, List, [], ◌∷◌, ◌++◌, none, refl, inl, inr, ltb, ◌==◌, length, arith, Option-cases,
}
use graybox_core.Replay.Replacements.Applied.Marked.{Marked, NoneFound, NoneFound-Marked}
use graybox_core.Replay.Replacements.Applied.{
  missing_value, remaining_markers, reject_remaining_markers, checked, replace_query, replace_body,
  apply_matched, apply,
}
use graybox_core.Replay.Replacements.{Outgoing, Replacements, applicable}
use graybox_core.Sanitize.Capture.{replace_values}
use graybox_core.Text.{Str}

empty :
    (json form query : List Str)
    → length json + length form + length query ≡ 0
    → (json ≡ []) × (form ≡ []) × (query ≡ [])
empty [] [] [] h = (refl, refl, refl)
empty [] [] (q ∷ query) h = ground arith
empty [] (f ∷ form) query h = ground arith
empty (j ∷ json) form query h = ground arith

module _ (go : Platform) where
  -- Only the query may have changed.
  abbrev pub Keeps : Outgoing → Outgoing → Type 0
  Keeps request sent =
      (sent.header ≡ request.header)
      × (sent.url.host ≡ request.url.host)
      × (sent.url.path ≡ request.url.path)

  abbrev Safe : Outgoing → Outgoing × Str → Type 0
  Safe request (sent, content) = Keeps request sent × (¬ Marked go sent content)

  reject-NoneFound :
      (request : Outgoing) (content : Str)
      → reject_remaining_markers go request content ≡ none
      → NoneFound go request content
  unfolding reject_remaining_markers
  reject-NoneFound request content h =
      let markers = remaining_markers go request content in
      empty markers.json markers.form markers.query (ground arith)

  checked-Yields :
      (request queried : Outgoing) (content : Str)
      → Keeps request queried
      → Yields (Safe request) (checked go queried content)
  unfolding checked
  checked-Yields request queried content k =
      elim (Option-cases (reject_remaining_markers go queried content)) [
        | inl n ↦
            rw (checked, n)
              (k, NoneFound-Marked go queried content (reject-NoneFound queried content n))
        | inr (e, n) ↦ rw (checked, n) tt
      ]

  replace_query-Yields :
      (matched : Replacements) (request : Outgoing)
      → Yields (Keeps request) (replace_query go matched request)
  unfolding replace_query
  replace_query-Yields matched request =
      Yields-if (Keeps request) (ltb 0 (length matched.query)) _ _
        (Yields-bind (λ q. Unit {0}) (Keeps request)
          (replace_values go request.url.raw_query matched.query true) _
          (Yields-any (replace_values go request.url.raw_query matched.query true))
          (λ q u. (refl, refl, refl)))
        (refl, refl, refl)

  apply_matched-Yields :
      (matched : Replacements) (request : Outgoing) (content : Str)
      → Yields (Safe request) (apply_matched go matched request content)
  unfolding apply_matched
  apply_matched-Yields matched request content =
      elim (Option-cases (missing_value (matched.query ++ (matched.json ++ matched.form)))) [
        | inr (f, n) ↦ rw (apply_matched, n) tt
        | inl n ↦
            rw (apply_matched, n)
              (Yields-bind (Keeps request) (Safe request) (replace_query go matched request) _
                (replace_query-Yields matched request)
                (λ queried k.
                  Yields-if (Safe request) (length matched.json + length matched.form == 0) _ _
                    (checked-Yields request queried content k)
                    (Yields-bind (λ q. Unit {0}) (Safe request) (replace_body go matched content) _
                      (Yields-any (replace_body go matched content))
                      (λ updated u. checked-Yields request queried updated k))))
      ]

pub apply-Marked :
    (go : Platform) (r : Replacements) (request sent : Outgoing) (content sent_content : Str)
    → apply go r request content ≡ ok (sent, sent_content)
    → Keeps go request sent × (¬ Marked go sent sent_content)
unfolding apply
apply-Marked go r request sent content sent_content e = rw e at (
    Yields-bind (λ q. Unit {0}) (λ (s, c). Keeps go request s × (¬ Marked go s c))
      (applicable go r request content) (λ matched. apply_matched go matched request content)
      (Yields-any (applicable go r request content))
      (λ matched u. apply_matched-Yields go matched request content))
