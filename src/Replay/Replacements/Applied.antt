-- ===== src/Replay/Replacements/Applied.antt =====
-- `apply` and `rejectRemainingMarkers` of internal/replay/replacements.go.
pub mod Marked
pub mod Unmarked
use graybox_core.Dict.{Dict}
use graybox_core.Failure.{Error, failure, Result, ok, err, ◌>>=◌}
use graybox_core.Platform.{Platform}
use graybox_core.Prelude.{
  ℕ, ◌+◌, true, [], ◌∷◌, ◌++◌, Option, none, some, ltb, ◌==◌, if◌then◌else◌, length,
}
use graybox_core.Replay.Replacements.{Outgoing, Replacements, applicable}
use graybox_core.Sanitize.Capture.{get_header, replace_values}
use graybox_core.Sanitize.Fields.{replace_json_body}
use graybox_core.Sanitize.Markers.{with_recorded_markers, with_recorded_query}
use graybox_core.Sanitize.Rules.{Rules}
use graybox_core.Text.{Str, codes, equal}

abbrev pub no_rules : Rules
no_rules = record { headers = []; json = []; query = []; form = [] }

-- The first field whose runtime value is empty.
unfoldable pub missing_value : Dict Str → Option Str
missing_value [] = none
missing_value ((field, value) ∷ group) = if equal value [] then some field else missing_value group

module _ (go : Platform) where
  -- The policy `markers` of `rejectRemainingMarkers`.
  unfoldable pub remaining_markers : Outgoing → Str → Rules
  remaining_markers request content =
      let queried = with_recorded_query go no_rules (go.url_string request.url) in
      if equal (get_header (codes "Content-Encoding") request.header) []
      then with_recorded_markers go queried request.header content
      else queried

  -- `rejectRemainingMarkers`
  unfoldable pub reject_remaining_markers : Outgoing → Str → Option Error
  reject_remaining_markers request content =
      let markers = remaining_markers request content in
      if ltb 0 (length markers.json + length markers.form + length markers.query)
      then some
          (failure (codes "cannot replay redacted credential fields without runtime replacements"))
      else none

  -- The request and the body, once they hold no marker.
  unfoldable pub checked : Outgoing → Str → Result (Outgoing × Str)
  checked request content = elim (reject_remaining_markers request content) [
    | some e ↦ err e
    | none ↦ ok (request, content)
  ]

  unfoldable pub replace_query : Replacements → Outgoing → Result Outgoing
  replace_query matched request =
      if ltb 0 (length matched.query)
      then (replace_values go request.url.raw_query matched.query true >>= λ query.
          ok (record request { url = record request.url { raw_query = query } }))
      else ok request

  unfoldable pub replace_body : Replacements → Str → Result Str
  replace_body matched content =
      if ltb 0 (length matched.json)
      then replace_json_body go content matched.json true
      else replace_values go content matched.form true

  -- What `apply` does with the values selected.
  unfoldable pub apply_matched : Replacements → Outgoing → Str → Result (Outgoing × Str)
  apply_matched matched request content =
      elim (missing_value (matched.query ++ (matched.json ++ matched.form))) [
        | some field ↦ err (failure (codes "runtime replacement value is missing for " ++ field))
        | none ↦ replace_query matched request >>= λ queried.
            if length matched.json + length matched.form == 0
            then checked queried content
            else (replace_body matched content >>= checked queried)
      ]

  -- `apply`: the request and the body that are sent.
  unfoldable pub apply : Replacements → Outgoing → Str → Result (Outgoing × Str)
  apply r request content = do
    matched ← applicable go r request content
    apply_matched matched request content
