-- ===== src/Sanitize/Redact.antt =====
-- internal/sanitize/redact.go: the marker and the headers that are always redacted.
use graybox_core.Dict.{contains}
use graybox_core.Prelude.{Bool, false, ◌||◌, List, [], ◌∷◌, if◌then◌else◌}
use graybox_core.Recording.{Headers}
use graybox_core.Text.{Str, codes, equal, to_lower}

-- `RedactedValue`
abbrev pub redacted_value : Str
redacted_value = codes "<REDACTED>"

-- `IsRedacted`
unfoldable pub is_redacted : Str → Bool
unfolding equal
is_redacted value = equal value redacted_value

-- `sensitiveHeaders`
abbrev pub sensitive_headers : List Str
sensitive_headers =
    codes "authorization" ∷ codes "proxy-authorization" ∷ codes "cookie" ∷ codes "set-cookie" ∷ []

unfoldable pub is_sensitive : Str → Bool
unfolding equal to_lower
is_sensitive name = contains sensitive_headers (to_lower name)

unfoldable pub redact_all : List Str → List Str
redact_all [] = []
redact_all (v ∷ vs) = redacted_value ∷ redact_all vs

-- `Headers`
unfoldable pub redact_headers : Headers → Headers
unfolding is_sensitive redact_all
redact_headers [] = []
redact_headers ((name, values) ∷ src) =
    (name, if is_sensitive name then redact_all values else values) ∷ redact_headers src

-- Does the loop over the values of a header or a field find the marker?
unfoldable pub any_redacted : List Str → Bool
any_redacted [] = false
any_redacted (value ∷ values) = is_redacted value || any_redacted values
