-- ===== src/Replay/Replacements.antt =====
-- internal/replay/replacements.go: which runtime values a recorded request takes.
pub mod Selected
pub mod Applied
use graybox_core.Dict.{Dict}
use graybox_core.Failure.{failure, Result, ok, err, ◌>>=◌}
use graybox_core.Platform.{Platform}
use graybox_core.Prelude.{
  ℕ, ◌+◌, Bool, true, false, not, ◌&&◌, ◌||◌, [], ◌∷◌, ltb, ◌==◌, if◌then◌else◌, length,
}
use graybox_core.Recording.{Headers}
use graybox_core.Sanitize.Capture.{get_header, query_withheld, is_json, existing_values}
use graybox_core.Sanitize.Fields.{existing_json}
use graybox_core.Text.{Str, codes, equal}
use graybox_core.Url.{Url}

-- The fields of `http.Request` that the selection reads.
pub record Outgoing : Type 0 where
  pub url : Url
  pub header : Headers

pub record Replacements : Type 0 where
  pub json : Dict Str
  pub query : Dict Str
  pub form : Dict Str

module _ (go : Platform) where
  -- The query rules that apply.
  unfoldable pub matched_query : Replacements → Outgoing → Result (Dict Str)
  matched_query r request =
      if length r.query == 0
      then ok []
      else if query_withheld go request.url.raw_query
      then err (
          failure
            (codes "cannot determine replacement fields: request query was withheld by redaction"))
      else existing_values go request.url.raw_query r.query

  -- The `switch` on the media type, for query rules already selected.
  unfoldable pub matched_body : Replacements → Dict Str → Str → Str → Result Replacements
  matched_body r query content kind =
      if is_json kind
      then if ltb 0 (length r.json)
        then (do
          json ← existing_json go content r.json
          ok (record { json = json; query = query; form = [] }))
        else ok (record { json = []; query = query; form = [] })
      else if equal kind (codes "application/x-www-form-urlencoded")
      then if ltb 0 (length r.form)
        then if go.utf8_valid content
          then (do
            form ← existing_values go content r.form
            ok (record { json = []; query = query; form = form }))
          else err (failure (codes "form request body is not valid UTF-8"))
        else ok (record { json = []; query = query; form = [] })
      else err (
          failure (
            codes
              "cannot determine replacement fields in an unsupported request body Content-Type"))

  -- What `Applicable` does behind the query rules.
  unfoldable pub select_body : Replacements → Outgoing → Str → Dict Str → Result Replacements
  select_body r request content query =
      let (kind, parsed) = go.media_type (get_header (codes "Content-Type") request.header) in
      if equal content [] || length r.json + length r.form == 0
      then ok (record { json = []; query = query; form = [] })
      else if not (equal (get_header (codes "Content-Encoding") request.header) [])
      then err (failure (codes "cannot determine replacement fields in an encoded request body"))
      else if not parsed
      then err (
          failure
            (codes "cannot determine replacement fields: invalid or missing request Content-Type"))
      else matched_body r query content kind

  -- `Applicable`
  unfoldable pub applicable : Replacements → Outgoing → Str → Result Replacements
  applicable r request content = do
    query ← matched_query r request
    select_body r request content query
