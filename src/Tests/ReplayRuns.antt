-- ===== src/Tests/ReplayRuns.antt =====
-- internal/replay on small inputs.
use graybox_core.Failure.{ok}
use graybox_core.Json.{null}
use graybox_core.Platform.{Platform}
use graybox_core.Prelude.{
  true, false, ◌≡◌, ◌≢◌, ◌⊎◌, refl, [], ◌∷◌, ◌++◌, some, length, All, take, ltb, concat_map,
}
use graybox_core.Recording.{Headers}
use graybox_core.Replay.Address.Joined.{build_url-ok}
use graybox_core.Replay.Address.{trim_slash, drop_slash, joined_url, build_url}
use graybox_core.Replay.Headers.Forwarded.{IsForwardable, copy_replay_headers-IsForwardable}
use graybox_core.Replay.Headers.{
  omitted_names, add_nominated, add_tokens, add_values, copy_entries, copy_replay_headers,
}
use graybox_core.Replay.Replacements.Applied.Marked.{Marked}
use graybox_core.Replay.Replacements.Selected.{Replaceable, applicable-replace_values}
use graybox_core.Replay.Replacements.{
  Outgoing, Replacements, matched_query, select_body, applicable,
}
use graybox_core.Sanitize.Capture.{query_withheld, existing_values, existing_keys}
use graybox_core.Replay.Response.Captured.{capture_response_body_lem}
use graybox_core.Replay.Response.{capture_response_body}
use graybox_core.Sanitize.Redact.{is_redacted, any_redacted}
use graybox_core.Dict.{lookup, put}
use graybox_core.Text.{codes, equal, split_on, trim_space, trim_left, trim_right, to_lower}
use graybox_core.Url.{Url}

abbrev recorded : Url
recorded = record {
  scheme = [];
  user = false;
  host = [];
  path = codes "/users";
  raw_path = [];
  raw_query = codes "id=7";
  force_query = false;
  fragment = codes "top";
}

abbrev target : Url
target = record {
  scheme = codes "http";
  user = false;
  host = codes "localhost";
  path = codes "/api/";
  raw_path = [];
  raw_query = [];
  force_query = false;
  fragment = [];
}

-- Calls by which every URL parses to the recorded one.
abbrev toy : Platform
toy = record {
  json = record { valid = λ s. true; decode = λ s. some null };
  json_tree = λ s. some null;
  unmarshal_object = λ s. some [];
  unmarshal_array = λ s. some [];
  unmarshal_string = λ s. some s;
  marshal_object = λ m. ok [];
  marshal_array = λ m. ok [];
  marshal_string = λ s. s;
  utf8_valid = λ s. true;
  media_type = λ s. (s, true);
  parse_query = λ s. ok ((codes "id", codes "7" ∷ []) ∷ []);
  encode_query = λ m. [];
  parse_url = λ s. ok recorded;
  url_string = λ u. u.path;
  escaped_path = λ u. u.path;
}

abbrev hop_by_hop : Headers
hop_by_hop =
    (codes "Connection", codes "close, x-drop " ∷ [])
    ∷ (codes "X-Drop", codes "1" ∷ [])
    ∷ (codes "Cookie", codes "<REDACTED>" ∷ [])
    ∷ (codes "accept", codes "text/html" ∷ [])
    ∷ []

kept : copy_replay_headers [] hop_by_hop ≡ (codes "Accept", codes "text/html" ∷ []) ∷ []
unfolding copy_replay_headers copy_entries omitted_names add_nominated add_tokens split_on
    trim_space trim_left trim_right to_lower lookup equal any_redacted is_redacted add_values put
kept = refl

copy_replay_headers-IsForwardable_example :
    All (IsForwardable hop_by_hop) (copy_replay_headers [] hop_by_hop)
copy_replay_headers-IsForwardable_example = copy_replay_headers-IsForwardable hop_by_hop

built : build_url toy (some target) (codes "/users?id=7") ≡ ok (joined_url toy target recorded)
unfolding build_url joined_url equal
built = refl

build_url-ok_example :
    ((target.scheme ≡ codes "http") ⊎ (target.scheme ≡ codes "https"))
    × (target.host ≢ [])
    × ((joined_url toy target recorded).scheme ≡ target.scheme)
    × ((joined_url toy target recorded).host ≡ target.host)
    × ((joined_url toy target recorded).user ≡ target.user)
    × ((joined_url toy target recorded).raw_query ≡ recorded.raw_query)
    × ((joined_url toy target recorded).fragment ≡ [])
    × ((joined_url toy target recorded).path
        ≡ trim_slash target.path ++ b'/' ∷ drop_slash recorded.path)
build_url-ok_example =
    build_url-ok toy target (codes "/users?id=7") recorded (joined_url toy target recorded) refl
      built

capture_response_body_lem_example : capture_response_body (codes "ab" ∷ codes "cd" ∷ []) 3 ≡ (
  take 3 (concat_map (λ x. x) (codes "ab" ∷ codes "cd" ∷ [])),
  length (concat_map (λ x. x) (codes "ab" ∷ codes "cd" ∷ [])),
  ltb 3 (length (concat_map (λ x. x) (codes "ab" ∷ codes "cd" ∷ []))),
)
capture_response_body_lem_example = capture_response_body_lem (codes "ab" ∷ codes "cd" ∷ []) 3

abbrev runtime : Replacements
runtime = record { json = []; query = (codes "id", codes "8") ∷ []; form = [] }

abbrev outgoing : Outgoing
outgoing = record { url = recorded; header = [] }

selected : applicable toy runtime outgoing [] ≡ ok runtime
unfolding applicable matched_query query_withheld lookup equal existing_values select_body
    existing_keys
selected = refl

applicable-replace_values_example :
    Replaceable toy recorded.raw_query runtime.query × Replaceable toy [] []
applicable-replace_values_example =
    applicable-replace_values toy runtime runtime outgoing [] selected

abbrev resent : Outgoing
resent = record { url = record recorded { raw_query = [] }; header = [] }
