-- ===== src/Cli/Redactor/Data.antt =====
-- `redactData` of internal/cli/secret_headers.go: the values of a diff, before they are shown.
pub mod Covered
use graybox_core.Cli.Redactor.Output.{set_field}
use graybox_core.Cli.Redactor.{SecretRedactor, redact}
use graybox_core.Diff.Domain.{Payload, status_data, header_data, json_data, snapshot_data}
use graybox_core.Json.{
  Json, null, boolean, number, string, array, object, Items, nil, cons, Fields, end, field,
}
use graybox_core.Prelude.{Bool, true, false, List, [], ◌∷◌, map, if◌then◌else◌}
use graybox_core.Sanitize.Redact.{redacted_value}
use graybox_core.Sort.{sort_by}
use graybox_core.Text.{Str, codes, equal, less}

-- A member of a map, with its key.
abbrev pub Member : Type 0
Member = Str × Json

abbrev pub key_less : Member → Member → Bool
key_less a b = less a.0 b.0

-- `strconv.FormatBool`
abbrev pub format_bool : Bool → Str
format_bool true = codes "true"
format_bool false = codes "false"

module _ (r : SecretRedactor) where
  -- The new map, filled in the order of the old keys.
  unfoldable pub set_members : List Member → Fields → Fields
  unfolding set_field
  set_members [] output = output
  set_members ((k, v) ∷ ms) output = set_members ms (set_field (redact r k) v output)

  unfoldable mutual
    pub redact_value : Json → Json
    redact_value null = null
    redact_value (string s) = string (redact r s)
    redact_value (number n) = if equal (redact r n) n then number n else string redacted_value
    redact_value (boolean b) =
        if equal (redact r (format_bool b)) (format_bool b)
        then boolean b
        else string redacted_value
    redact_value (array vs) = array (redact_items vs)
    redact_value (object fs) = object (set_members (sort_by key_less (redact_members fs)) end)

    pub redact_items : Items → Items
    redact_items nil = nil
    redact_items (cons v vs) = cons (redact_value v) (redact_items vs)

    -- The members under their old keys, with their new values.
    pub redact_members : Fields → List Member
    redact_members end = []
    redact_members (field k v fs) = (k, redact_value v) ∷ redact_members fs

  redact_payload : Payload → Payload
  unfolding redact_value
  redact_payload (json_data v) = json_data (redact_value v)
  redact_payload (header_data values) = header_data (map (redact r) values)
  redact_payload (status_data code) = status_data code
  redact_payload (snapshot_data snapshot) = snapshot_data snapshot

  -- `redactData` on what a `Value` holds.
  unfoldable pub redact_data : Payload → Payload
  unfolding redact_payload
  redact_data payload = elim r.forms [ [] ↦ payload | ◌∷◌ form forms ↦ redact_payload payload ]
