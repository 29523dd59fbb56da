-- ===== src/Json.antt =====
-- The values that encoding/json decodes with UseNumber into `any`: nil, bool, json.Number (the
-- number's own text), string, []any and map[string]any, with the maps as association lists.
pub mod Codec
use graybox_core.Prelude.{Bool, List, [], ◌∷◌, Option, none, some, if◌then◌else◌}
use graybox_core.Text.{Str, equal}

mutual
  pub data Json : Type 0 where
    null : Json
    boolean : Bool → Json
    number : Str → Json
    string : Str → Json
    array : Items → Json
    object : Fields → Json

  pub data Items : Type 0 where
    nil : Items
    cons : Json → Items → Items

  pub data Fields : Type 0 where
    end : Fields
    field : Str → Json → Fields → Fields

-- `value, present := object[key]`
unfoldable pub get_field : Str → Fields → Option Json
get_field k end = none
get_field k (field j v fs) = if equal j k then some v else get_field k fs

abbrev pub field_keys : Fields → List Str
field_keys end = []
field_keys (field k v fs) = k ∷ field_keys fs
