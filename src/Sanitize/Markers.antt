-- ===== src/Sanitize/Markers.antt =====
-- internal/sanitize/comparison.go: a policy that also covers what a recording shows as redacted.
pub mod Covered
pub mod Found
use graybox_core.Diff.Location.{escape_token}
use graybox_core.Failure.{ok, err}
use graybox_core.Json.{
  Json, null, boolean, number, string, array, object, Items, nil, cons, Fields, end, field,
}
use graybox_core.Platform.{Platform, Values}
use graybox_core.Prelude.{
  ℕ, zero, suc, Bool, not, ◌&&◌, List, [], ◌∷◌, ◌++◌, none, some, if◌then◌else◌,
}
use graybox_core.Recording.{Headers}
use graybox_core.Sanitize.Capture.{get_header, is_json}
use graybox_core.Sanitize.Fields.{valid_json}
use graybox_core.Sanitize.Redact.{is_redacted, any_redacted, is_sensitive}
use graybox_core.Sanitize.Rules.{Rules}
use graybox_core.Sort.{sort_strings}
use graybox_core.Text.{Str, codes, equal, itoa}

-- The loop of `WithRecordedMarkers` over the headers.
unfoldable pub redacted_names : Headers → List Str
redacted_names [] = []
redacted_names ((name, values) ∷ headers) =
    if is_sensitive name
    then redacted_names headers
    else if any_redacted values
    then name ∷ redacted_names headers
    else redacted_names headers

-- The loops over the fields of a form or a query.
unfoldable pub redacted_keys : Values → List Str
redacted_keys [] = []
redacted_keys ((key, items) ∷ values) =
    if any_redacted items then key ∷ redacted_keys values else redacted_keys values

mutual
  markers : Json → Str → List Str
  markers (string s) pointer = if not (equal pointer []) && is_redacted s then pointer ∷ [] else []
  markers (object fs) pointer = field_markers fs pointer
  markers (array vs) pointer = item_markers vs zero pointer
  markers null pointer = []
  markers (boolean b) pointer = []
  markers (number n) pointer = []

  field_markers : Fields → Str → List Str
  field_markers end pointer = []
  field_markers (field k v fs) pointer =
      markers v (pointer ++ b'/' ∷ escape_token k) ++ field_markers fs pointer

  item_markers : Items → ℕ → Str → List Str
  item_markers nil index pointer = []
  item_markers (cons v vs) index pointer =
      markers v (pointer ++ b'/' ∷ itoa index) ++ item_markers vs (suc index) pointer

-- `markerPointers`
unfoldable pub marker_pointers : Json → Str → List Str
unfolding markers
marker_pointers v pointer = markers v pointer

module _ (go : Platform) where
  -- The case of a JSON body.
  unfoldable pub json_markers : Str → List Str
  json_markers content =
      if valid_json go content
      then elim (go.json.decode content) [ none ↦ [] | some v ↦ marker_pointers v [] ]
      else []

  -- The case of a form.
  unfoldable pub form_markers : Str → List Str
  form_markers content = elim (go.parse_query content) [
    | err e ↦ []
    | ok values ↦ redacted_keys values
  ]

  -- `WithRecordedMarkers`
  unfoldable pub with_recorded_markers : Rules → Headers → Str → Rules
  with_recorded_markers r headers content =
      let kind = (go.media_type (get_header (codes "Content-Type") headers)).0 in
      record r {
        headers = sort_strings (r.headers ++ redacted_names headers);
        json = sort_strings (r.json ++ (if is_json kind then json_markers content else []));
        form = sort_strings (
            r.form
            ++ (if not (is_json kind) && equal kind (codes "application/x-www-form-urlencoded")
                then form_markers content
                else []));
      }

  -- `WithRecordedQuery`
  unfoldable pub with_recorded_query : Rules → Str → Rules
  with_recorded_query r raw = elim (go.parse_url raw) [
    | err e ↦ r
    | ok parsed ↦ elim (go.parse_query parsed.raw_query) [
      | err e ↦ r
      | ok values ↦ record r { query = sort_strings (r.query ++ redacted_keys values) }
    ]
  ]
