-- ===== src/Replay/Headers.antt =====
-- internal/replay/replay.go: the headers of a replayed request.
pub mod Nominated
pub mod Forwarded
pub mod Overridden
use graybox_core.Dict.{contains, lookup, put}
use graybox_core.Prelude.{
  ℕ, ◌-◌, Bool, true, false, ◌&&◌, ◌||◌, List, [], ◌∷◌, ◌++◌, none, some, leb, ◌==◌, if◌then◌else◌,
}
use graybox_core.Recording.{Headers}
use graybox_core.Sanitize.Redact.{any_redacted}
use graybox_core.Text.{Str, codes, equal, to_lower, trim_space, lower_byte, is_digit, split_on}

abbrev pub upper_byte : ℕ → ℕ
upper_byte c = if leb b'a' c && leb c b'z' then c - 32 else c

abbrev pub any_byte : List ℕ → ℕ → Bool
any_byte [] c = false
any_byte (b ∷ bs) c = b == c || any_byte bs c

-- The bytes that `net/textproto` takes in a header name.
abbrev is_token : Str → Bool
is_token [] = true
is_token (c ∷ s) =
    (leb b'A' c && leb c b'Z'
      || leb b'a' c && leb c b'z'
      || is_digit c
      || any_byte (codes "!#$%&'*+-.^_`|~") c)
    && is_token s

unfoldable pub canonical_from : Bool → Str → Str
canonical_from upper [] = []
canonical_from upper (c ∷ s) =
    (if upper then upper_byte c else lower_byte c) ∷ canonical_from (c == b'-') s

-- `textproto.CanonicalMIMEHeaderKey`
unfoldable pub canonical : Str → Str
unfolding canonical_from
canonical name = if is_token name then canonical_from true name else name

-- `http.Header.Add`
unfoldable pub add_value : Str → Str → Headers → Headers
unfolding canonical
add_value name value h =
    put (canonical name)
      ((elim (lookup (canonical name) h) [ none ↦ [] | some values ↦ values ]) ++ value ∷ []) h

-- The loop `dst.Add(name, value)` over the values of a name.
unfoldable pub add_values : Str → List Str → Headers → Headers
unfolding add_value
add_values name [] h = h
add_values name (value ∷ values) h = add_values name values (add_value name value h)

-- `delete(m, k)`
unfoldable pub remove : Str → Headers → Headers
remove k [] = []
remove k ((j, values) ∷ h) = let rest = remove k h in if equal j k then rest else (j, values) ∷ rest

-- `omittedHeaders`
abbrev pub omitted_headers : List Str
omitted_headers =
    codes "connection"
    ∷ codes "content-length"
    ∷ codes "host"
    ∷ codes "keep-alive"
    ∷ codes "proxy-authenticate"
    ∷ codes "proxy-authorization"
    ∷ codes "te"
    ∷ codes "trailer"
    ∷ codes "transfer-encoding"
    ∷ codes "upgrade"
    ∷ codes "proxy-connection"
    ∷ []

-- The names that one value of the Connection header nominates.
unfoldable pub add_tokens : List Str → List Str → List Str
unfolding trim_space to_lower
add_tokens [] omitted = omitted
add_tokens (token ∷ tokens) omitted =
    add_tokens tokens
      (if equal (trim_space token) [] then omitted else to_lower (trim_space token) ∷ omitted)

unfoldable pub add_nominated : List Str → List Str → List Str
unfolding add_tokens split_on
add_nominated [] omitted = omitted
add_nominated (value ∷ values) omitted =
    add_nominated values (add_tokens (split_on b',' value) omitted)

-- The set `omitted` of `copyReplayHeaders`.
unfoldable pub omitted_names : Headers → List Str
unfolding add_nominated
omitted_names src = elim (lookup (codes "Connection") src) [
  | none ↦ omitted_headers
  | some values ↦ add_nominated values omitted_headers
]

-- The loop of `copyReplayHeaders` over the recorded headers.
unfoldable pub copy_entries : List Str → Headers → Headers → Headers
copy_entries omitted dst [] = dst
copy_entries omitted dst ((name, values) ∷ src) =
    copy_entries omitted
      (if contains omitted (to_lower name) || any_redacted values
        then dst
        else add_values name values dst)
      src

-- `copyReplayHeaders`
unfoldable pub copy_replay_headers : Headers → Headers → Headers
copy_replay_headers dst src = copy_entries (omitted_names src) dst src

-- `applyRequestHeaderOverrides`
unfoldable pub apply_request_header_overrides : Headers → Headers → Headers
apply_request_header_overrides dst [] = dst
apply_request_header_overrides dst ((name, values) ∷ overrides) =
    apply_request_header_overrides
      (elim values [ [] ↦ dst | ◌∷◌ v vs ↦ add_values name (v ∷ vs) (remove (canonical name) dst) ])
      overrides
