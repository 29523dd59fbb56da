-- ===== src/Replay/Replacements/Applied/Marked.antt =====
-- Where a request holds the redaction marker, and that `rejectRemainingMarkers` finds it there.
use graybox_core.Failure.{ok}
use graybox_core.Json.{Json}
use graybox_core.Platform.{Platform, Values}
use graybox_core.Prelude.{
  true, false, ◌≡◌, ◌≢◌, ◌⊎◌, inl, inr, refl, sym, ap, ◌∙◌, [], ◌++◌, some, arith, Bool-cases,
}
use graybox_core.Replay.Replacements.Applied.{no_rules, remaining_markers}
use graybox_core.Replay.Replacements.{Outgoing}
use graybox_core.Sanitize.Capture.{get_header, is_json}
use graybox_core.Sanitize.Fields.Unique.{UniqueKeys, valid_json-true}
use graybox_core.Sanitize.Markers.Found.{
  HoldsBelow, HasMarker, append-ne_right, HoldsBelow-marker_pointers, HasMarker-redacted_keys,
  sort_strings-ne,
}
use graybox_core.Sanitize.Markers.{
  with_recorded_markers, with_recorded_query, json_markers, form_markers, redacted_keys,
}
use graybox_core.Sanitize.Rules.{Rules}
use graybox_core.Text.Laws.{equal_iff, equal_self, has_prefix-append}
use graybox_core.Text.{Str, codes, equal, has_suffix}
use graybox_core.Url.{Url}
use mathlib.Core.List.{reverse, reverse-append}

-- application/json, or a media type that ends in +json.
abbrev pub IsJsonKind : Str → Type 0
IsJsonKind kind = (kind ≡ codes "application/json") ⊎ ((s : Str) × (kind ≡ s ++ codes "+json"))

module _ (go : Platform) where
  abbrev pub kind_of : Outgoing → Str
  kind_of request = (go.media_type (get_header (codes "Content-Type") request.header)).0

  -- The marker is a value of the query, where this can be read; or it stands in the body, where the body
  -- is not encoded and is a form that can be read, or JSON in UTF-8 whose objects have no key twice.
  pub data Marked (request : Outgoing) (content : Str) : Type 0 where
    in_query :
        (parsed : Url) (values : Values)
        → go.parse_url (go.url_string request.url) ≡ ok parsed
        → go.parse_query parsed.raw_query ≡ ok values
        → HasMarker values
        → Marked request content
    in_form :
        (values : Values)
        → get_header (codes "Content-Encoding") request.header ≡ []
        → kind_of request ≡ codes "application/x-www-form-urlencoded"
        → go.parse_query content ≡ ok values
        → HasMarker values
        → Marked request content
    in_json :
        (tree v : Json)
        → get_header (codes "Content-Encoding") request.header ≡ []
        → IsJsonKind (kind_of request)
        → go.utf8_valid content ≡ true
        → go.json.valid content ≡ true
        → go.json_tree content ≡ some tree
        → UniqueKeys tree
        → go.json.decode content ≡ some v
        → HoldsBelow v
        → Marked request content

  IsJsonKind-is_json : (kind : Str) → IsJsonKind kind → is_json kind ≡ true
  unfolding is_json has_suffix
  IsJsonKind-is_json kind (inl e) = ground (arith, equal_iff kind (codes "application/json"))
  IsJsonKind-is_json kind (inr (s, e)) =
      let suffix : has_suffix kind (codes "+json") ≡ true =
        rw (e, has_suffix, reverse-append s (codes "+json"))
          (has_prefix-append (reverse (codes "+json")) (reverse s)) in
      ground arith

  form_kind : is_json (codes "application/x-www-form-urlencoded") ≡ false
  unfolding is_json has_suffix equal graybox_core.Text.has_prefix
  form_kind = refl

  -- What is looked for in the query.
  abbrev queried : Outgoing → Rules
  queried request = with_recorded_query go no_rules (go.url_string request.url)

  -- The search for markers comes to nothing.
  abbrev pub NoneFound : Outgoing → Str → Type 0
  NoneFound request content =
      ((remaining_markers go request content).json ≡ [])
      × ((remaining_markers go request content).form ≡ [])
      × ((remaining_markers go request content).query ≡ [])

  remaining-query :
      (request : Outgoing) (content : Str)
      → (remaining_markers go request content).query ≡ (queried request).query
  unfolding remaining_markers with_recorded_markers
  remaining-query request content =
      elim (Bool-cases (equal (get_header (codes "Content-Encoding") request.header) [])) [
        | inl e ↦ rw (remaining_markers, e)
        | inr e ↦ rw (remaining_markers, e)
      ]

  remaining-plain :
      (request : Outgoing) (content : Str)
      → get_header (codes "Content-Encoding") request.header ≡ []
      → remaining_markers go request content
        ≡ with_recorded_markers go (queried request) request.header content
  unfolding remaining_markers
  remaining-plain request content e =
      rw (
        remaining_markers,
        (equal_iff (get_header (codes "Content-Encoding") request.header) []).1 e,
      )

  queried-ne :
      (request : Outgoing) (parsed : Url) (values : Values)
      → go.parse_url (go.url_string request.url) ≡ ok parsed
      → go.parse_query parsed.raw_query ≡ ok values
      → HasMarker values
      → (queried request).query ≢ []
  unfolding with_recorded_query
  queried-ne request parsed values p q m =
      rw (with_recorded_query, p, q)
        (sort_strings-ne (redacted_keys values) (HasMarker-redacted_keys values m))

  form_markers-ne :
      (content : Str) (values : Values)
      → go.parse_query content ≡ ok values
      → HasMarker values
      → form_markers go content ≢ []
  unfolding form_markers
  form_markers-ne content values q m = rw (form_markers, q) (HasMarker-redacted_keys values m)

  json_markers-ne :
      (content : Str) (tree v : Json)
      → go.utf8_valid content ≡ true
      → go.json.valid content ≡ true
      → go.json_tree content ≡ some tree
      → UniqueKeys tree
      → go.json.decode content ≡ some v
      → HoldsBelow v
      → json_markers go content ≢ []
  unfolding json_markers
  json_markers-ne content tree v u j t k d h =
      rw (json_markers, valid_json-true go content tree u j t k, d) (HoldsBelow-marker_pointers v h)

  with_form-ne :
      (r : Rules) (request : Outgoing) (content : Str)
      → kind_of request ≡ codes "application/x-www-form-urlencoded"
      → form_markers go content ≢ []
      → (with_recorded_markers go r request.header content).form ≢ []
  unfolding with_recorded_markers
  with_form-ne r request content k n =
      rw (k, form_kind, equal_self (codes "application/x-www-form-urlencoded"))
        (sort_strings-ne (r.form ++ form_markers go content)
          (append-ne_right r.form (form_markers go content) n))

  with_json-ne :
      (r : Rules) (request : Outgoing) (content : Str)
      → IsJsonKind (kind_of request)
      → json_markers go content ≢ []
      → (with_recorded_markers go r request.header content).json ≢ []
  unfolding with_recorded_markers
  with_json-ne r request content k n = rw (IsJsonKind-is_json (kind_of request) k) (
      sort_strings-ne (r.json ++ json_markers go content)
        (append-ne_right r.json (json_markers go content) n))

  -- Where no marker is found, none stands there.
  pub NoneFound-Marked :
      (request : Outgoing) (content : Str) → NoneFound request content → ¬ Marked request content
  NoneFound-Marked request content h (in_query parsed values p q m) =
      queried-ne request parsed values p q m (sym (remaining-query request content) ∙ h.2)
  NoneFound-Marked request content h (in_form values e k q m) =
      with_form-ne (queried request) request content k (form_markers-ne content values q m)
        (ap (λ r. r.form) (sym (remaining-plain request content e)) ∙ h.1)
  NoneFound-Marked request content h (in_json tree v e k u j t w d m) =
      with_json-ne (queried request) request content k (json_markers-ne content tree v u j t w d m)
        (ap (λ r. r.json) (sym (remaining-plain request content e)) ∙ h.0)
