-- ===== src/Sanitize/Rules.antt =====
-- `Rules` of internal/sanitize/fields.go, with its header redaction and its merge.
pub mod Protect
use graybox_core.Dict.{add_keys}
use graybox_core.Prelude.{
  ℕ, ◌+◌, Bool, true, false, not, ◌||◌, List, [], ◌∷◌, ltb, if◌then◌else◌, length,
}
use graybox_core.Recording.{Headers}
use graybox_core.Sanitize.Redact.{redact_all, redact_headers}
use graybox_core.Sort.{sort_strings}
use graybox_core.Text.{Str, equal_fold}

pub record Rules : Type 0 where
  pub headers : List Str
  pub json : List Str
  pub query : List Str
  pub form : List Str

-- The inner loop of `ApplyHeaders`, over the configured names.
unfoldable pub apply_names : List Str → Str → List Str → List Str
unfolding redact_all
apply_names [] name values = values
apply_names (sensitive ∷ names) name values =
    apply_names names name (if equal_fold name sensitive then redact_all values else values)

unfoldable pub apply_entries : List Str → Headers → Headers
apply_entries names [] = []
apply_entries names ((name, values) ∷ dst) =
    (name, apply_names names name values) ∷ apply_entries names dst

-- `ApplyHeaders`
unfoldable pub apply_headers : Rules → Headers → Headers
apply_headers r src = apply_entries r.headers (redact_headers src)

-- `Configured`
unfoldable pub configured : Rules → Bool
configured r = ltb 0 (length r.headers + length r.json + length r.query + length r.form)

-- The closure `merge` of `Merge`.
unfoldable pub merge_names : List Str → List Str → List Str
merge_names left right = sort_strings (add_keys right (add_keys left []))

-- `Merge`
unfoldable pub merge : Rules → Rules → Rules
merge r other = record {
  headers = merge_names r.headers other.headers;
  json = merge_names r.json other.json;
  query = merge_names r.query other.query;
  form = merge_names r.form other.form;
}
