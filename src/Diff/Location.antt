-- ===== src/Diff/Location.antt =====
-- internal/diff/location.go: where a difference occurred, JSON Pointers, and ignore rules.
pub mod Ignore
use graybox_core.Prelude.{Bool, true, false, ◌||◌, List, [], ◌∷◌, ◌++◌, if◌then◌else◌}
use graybox_core.Text.{Str, codes, equal, has_prefix, to_lower, equal_fold, trim_space, replace_all}

-- `Component`
pub data Component : Type 0 where
  status headers body : Component

abbrev pub same_component : Component → Component → Bool
same_component status status = true
same_component headers headers = true
same_component body body = true
same_component _ _ = false

-- The string values of the constants.
unfoldable pub component_name : Component → Str
component_name status = codes "response.status"
component_name headers = codes "response.headers"
component_name body = codes "response.body"

pub record Location : Type 0 where
  pub component : Component
  pub path : Str

unfoldable pub status_location : Location
status_location = record { component = status; path = [] }

unfoldable pub header_location : Str → Location
unfolding to_lower trim_space
header_location name = record { component = headers; path = to_lower (trim_space name) }

unfoldable pub body_location : Str → Location
body_location pointer = record { component = body; path = pointer }

-- `Location.String`
joined : Component → Str → Str
unfolding component_name
joined body path = component_name body ++ b'#' ∷ path
joined headers path = component_name headers ++ b'.' ∷ path
joined status path = component_name status ++ b'.' ∷ path

unfoldable pub location_string : Location → Str
unfolding component_name equal joined
location_string l =
    if equal l.path [] then component_name l.component else joined l.component l.path

-- The two `ReplaceAll` calls of `AppendJSONPointer`.
unfoldable pub escape_token : Str → Str
unfolding replace_all
escape_token token =
    replace_all (replace_all token (b'~' ∷ []) (b'~' ∷ b'0' ∷ [])) (b'/' ∷ []) (b'~' ∷ b'1' ∷ [])

unfoldable pub append_json_pointer : Str → Str → Str
unfolding escape_token
append_json_pointer pointer token =
    let token' = escape_token token in
    if equal pointer [] then b'/' ∷ token' else pointer ++ b'/' ∷ token'

-- `Rules`
pub record Rules : Type 0 where
  pub ignore : List Location

-- The `switch` of the loop of `Ignores`: does a rule with this nonempty path cover the location?
unfoldable pub covers : Component → Str → Str → Bool
unfolding equal has_prefix equal_fold
covers headers rule path = equal_fold rule path
covers body rule path = equal rule path || has_prefix path (rule ++ b'/' ∷ [])
covers status rule path = equal rule path

-- One round of the loop: does the rule make `Ignores` return true?
unfoldable pub rule_ignores : Location → Location → Bool
unfolding covers
rule_ignores ignored l =
    if same_component ignored.component l.component
    then (if equal ignored.path [] then true else covers l.component ignored.path l.path)
    else false

unfoldable pub any_ignores : List Location → Location → Bool
unfolding rule_ignores
any_ignores [] l = false
any_ignores (r ∷ rs) l = if rule_ignores r l then true else any_ignores rs l

-- `Rules.Ignores`
unfoldable pub ignores : Rules → Location → Bool
unfolding any_ignores
ignores r l = any_ignores r.ignore l
