-- ===== src/Tests/SanitizeRuns.antt =====
-- internal/sanitize and internal/storage on small inputs.
use graybox_core.Dict.{Dict, lookup, put}
use graybox_core.Diff.Location.{append_json_pointer}
use graybox_core.Failure.{ok}
use graybox_core.Json.{null}
use graybox_core.Platform.{Platform}
use graybox_core.Prelude.{true, false, ◌≡◌, ◌⊎◌, refl, [], ◌∷◌, ◌++◌, some, none, length}
use graybox_core.Recording.{Headers}
use graybox_core.Sanitize.Capture.Sizes.{capture_body-body_metadata}
use graybox_core.Sanitize.Capture.{existing_values, existing_keys, capture_body}
use graybox_core.Sanitize.Fields.Replace.{replace_json-found}
use graybox_core.Sanitize.Fields.{opens_with, put_back, replace_json}
use graybox_core.Sanitize.Markers.Covered.{apply_headers-with_recorded_markers}
use graybox_core.Sanitize.Markers.{with_recorded_markers}
use graybox_core.Sanitize.Pointer.RoundTrip.{pointer-append_json_pointer}
use graybox_core.Sanitize.Pointer.{pointer}
use graybox_core.Sanitize.Redact.{redact_all, any_redacted, is_redacted}
use graybox_core.Sanitize.Rules.Protect.{apply_headers-merge}
use graybox_core.Sanitize.Rules.{Rules, apply_headers, merge}
use graybox_core.Storage.Metadata.{validate_body_metadata, body_metadata}
use graybox_core.Text.{Str, codes, equal, trim_space}
use mathlib.Core.List.{foldl}
use mathlib.Core.Option.{map}

-- The values of a map, one after the other.
abbrev shown : Dict Str → Str
shown [] = []
shown ((k, v) ∷ m) = v ++ shown m

-- Calls that take every object to have the one member `a`, with the value `1`.
abbrev toy : Platform
toy = record {
  json = record { valid = λ s. true; decode = λ s. some null };
  json_tree = λ s. some null;
  unmarshal_object = λ s. some ((codes "a", codes "1") ∷ []);
  unmarshal_array = λ s. some [];
  unmarshal_string = λ s. some s;
  marshal_object = λ m. ok (codes "{" ++ shown m);
  marshal_array = λ m. ok [];
  marshal_string = λ s. s;
  utf8_valid = λ s. true;
  media_type = λ s. (s, true);
  parse_query = λ s. ok ((codes "token", s ∷ []) ∷ []);
  encode_query = λ m. codes "token=x";
  parse_url = λ s. ok (record {
    scheme = codes "http";
    user = false;
    host = codes "h";
    path = s;
    raw_path = [];
    raw_query = [];
    force_query = false;
    fragment = [];
  });
  url_string = λ u. u.path;
  escaped_path = λ u. u.path;
}

abbrev form_rules : Rules
form_rules = record {
  headers = codes "X-Key" ∷ [];
  json = [];
  query = [];
  form = codes "token" ∷ [];
}

abbrev other_rules : Rules
other_rules = record { headers = codes "x-other" ∷ []; json = []; query = []; form = [] }

abbrev form_headers : Headers
form_headers = (codes "Content-Type", codes "application/x-www-form-urlencoded" ∷ []) ∷ []

abbrev sent : Headers
sent = (codes "X-Key", codes "s" ∷ []) ∷ (codes "Accept", codes "*/*" ∷ []) ∷ []

pointer-append_json_pointer_example :
    pointer (foldl append_json_pointer [] (codes "a/b" ∷ codes "~" ∷ []))
    ≡ ok (codes "a/b" ∷ codes "~" ∷ [])
pointer-append_json_pointer_example = pointer-append_json_pointer (codes "a/b") (codes "~" ∷ [])

apply_headers-merge_example :
    lookup (codes "X-Key") (apply_headers (merge form_rules other_rules) sent)
    ≡ lookup (codes "X-Key") (apply_headers other_rules (apply_headers form_rules sent))
apply_headers-merge_example = apply_headers-merge form_rules other_rules sent (codes "X-Key")

consistent : body_metadata (codes "abc") 3 false ≡ ok 3
unfolding body_metadata validate_body_metadata
consistent = refl

capture_body-body_metadata_example :
    body_metadata
      (capture_body toy form_rules (codes "abc") form_headers 3 false true).0
      (capture_body toy form_rules (codes "abc") form_headers 3 false true).1
      false
    ≡ ok (length (capture_body toy form_rules (codes "abc") form_headers 3 false true).0)
capture_body-body_metadata_example =
    capture_body-body_metadata toy form_rules (codes "abc") form_headers 3 false true consistent

selected : replace_json toy (codes "{") (codes "a" ∷ []) none ≡ ok (codes "{", true)
unfolding replace_json opens_with trim_space lookup put_back equal
selected = refl

replaced : replace_json toy (codes "{") (codes "a" ∷ []) (some (codes "2")) ≡ ok (codes "{2", true)
unfolding replace_json opens_with trim_space lookup put_back equal put
replaced = refl

replace_json-found_example :
    (codes "{" ≡ codes "{") × (true ≡ true) × ((true ≡ true) ⊎ (codes "{2" ≡ codes "{"))
replace_json-found_example =
    replace_json-found toy (codes "{") (codes "a" ∷ []) (codes "2") (codes "{") (codes "{2") true
      true selected replaced

abbrev runtime : Dict Str
runtime = (codes "token", codes "v") ∷ (codes "other", codes "w") ∷ []

chosen : existing_values toy (codes "abc") runtime ≡ ok ((codes "token", codes "v") ∷ [])
unfolding existing_values existing_keys lookup equal
chosen = refl

abbrev was_redacted : Headers
was_redacted = (codes "X-Api", codes "<REDACTED>" ∷ []) ∷ []

abbrev now_sent : Headers
now_sent = (codes "X-Api", codes "secret" ∷ []) ∷ (codes "Accept", codes "*/*" ∷ []) ∷ []

apply_headers-with_recorded_markers_example :
    lookup
      (codes "X-Api")
      (apply_headers (with_recorded_markers toy other_rules was_redacted []) now_sent)
    ≡ map redact_all (lookup (codes "X-Api") now_sent)
unfolding lookup any_redacted equal is_redacted
apply_headers-with_recorded_markers_example =
    apply_headers-with_recorded_markers toy other_rules was_redacted now_sent [] (codes "X-Api")
      (codes "<REDACTED>" ∷ []) refl refl
