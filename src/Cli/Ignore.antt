-- ===== src/Cli/Ignore.antt =====
-- internal/cli/diff.go: the locations that a diff leaves out.
pub mod Appended
pub mod Built
pub mod Pointers
use graybox_core.Diff.Location.{
  Component, status, headers, body, same_component, Location, status_location, header_location,
  body_location, location_string, Rules,
}
use graybox_core.Failure.{usage, wrap, invalid_recording, is_not_found, Result, ok, err, ◌>>=◌}
use graybox_core.Cli.Target.{MetadataReader}
use graybox_core.Prelude.Int.{ℤ, pos, negsuc}
use graybox_core.Replay.Runner.{default_response_body_capture_limit}
use graybox_core.Prelude.{
  ℕ, zero, suc, Bool, true, false, not, ◌&&◌, ◌||◌, List, [], ◌∷◌, ◌++◌, ◌==◌, if◌then◌else◌,
  length, drop,
}
use graybox_core.Text.{Str, codes, equal, has_prefix, trim_space}

-- `==` on locations, the keys of the map `seen`.
unfoldable pub same_location : Location → Location → Bool
same_location a b = same_component a.component b.component && equal a.path b.path

unfoldable pub contains_location : List Location → Location → Bool
contains_location [] l = false
contains_location (k ∷ ks) l = same_location k l || contains_location ks l

-- `defaultDiffIgnoredLocations`
unfoldable pub default_diff_ignored_locations : List Location
default_diff_ignored_locations =
    header_location (codes "Date") ∷ header_location (codes "Content-Length") ∷ []

-- The loop of `validJSONPointer`: each `~` is followed by `0` or `1`.
unfoldable pub valid_tildes : Str → Bool
valid_tildes [] = true
valid_tildes (c ∷ []) = not (c == b'~')
valid_tildes (c ∷ d ∷ s) = elim (c == b'~') [
  | true ↦ if not (d == b'0') && not (d == b'1') then false else valid_tildes s
  | false ↦ valid_tildes (d ∷ s)
]

-- `validJSONPointer`
unfoldable pub valid_json_pointer : Str → Bool
valid_json_pointer [] = false
valid_json_pointer (c ∷ s) = if not (c == b'/') then false else valid_tildes (c ∷ s)

invalid_location : Result Location
invalid_location = err (usage (codes "invalid --ignore location"))

-- The cases of the `switch` on a trimmed value.
header_case : Str → Result Location
unfolding invalid_location
header_case rest =
    let name = trim_space rest in
    if equal name [] then invalid_location else ok (header_location name)

unfoldable pub pointer_case : Str → Result Location
unfolding invalid_location
pointer_case pointer =
    if valid_json_pointer pointer then ok (body_location pointer) else invalid_location

unfoldable pub location_of : Str → Result Location
unfolding header_case pointer_case invalid_location
location_of value =
    if equal value (codes "response.status")
    then ok status_location
    else if equal value (codes "response.headers")
    then ok (record { component = headers; path = [] })
    else if has_prefix value (codes "response.headers.")
    then header_case (drop 17 value)
    else if equal value (codes "response.body")
    then ok (body_location [])
    else if has_prefix value (codes "response.body#")
    then pointer_case (drop 14 value)
    else invalid_location

-- `parseDiffIgnoreLocation`
unfoldable pub parse_diff_ignore_location : Str → Result Location
parse_diff_ignore_location value = location_of (trim_space value)

-- The variables `locations` and `display` of `buildDiffRules`; `seen` holds what `locations` holds.
pub record Ignored : Type 0 where
  pub locations : List Location
  pub display : List Str

-- The closure `appendLocation`.
unfoldable pub append_location : Location → Ignored → Ignored
append_location l s =
    if contains_location s.locations l
    then s
    else record { locations = s.locations ++ l ∷ []; display = s.display ++ location_string l ∷ [] }

unfoldable pub append_locations : List Location → Ignored → Ignored
append_locations [] s = s
append_locations (l ∷ ls) s = append_locations ls (append_location l s)

-- The loop over the values given.
unfoldable pub append_values : List Str → Ignored → Result Ignored
append_values [] s = ok s
append_values (value ∷ values) s = do
  location ← parse_diff_ignore_location value
  append_values values (append_location location s)

-- `buildDiffRules`
unfoldable pub build_diff_rules : List Str → Result (Rules × List Str)
build_diff_rules values = do
  s ←
      append_values values
        (append_locations default_diff_ignored_locations (record { locations = []; display = [] }))
  ok (record { ignore = s.locations }, s.display)

-- A limit that is not a positive integer is refused.
positive_limit : Result ℤ → Result ℕ
positive_limit (ok (pos (suc n))) = ok (suc n)
positive_limit (ok (pos zero)) =
    err (wrap (codes "invalid body_capture_limit metadata") invalid_recording)
positive_limit (ok (negsuc n)) =
    err (wrap (codes "invalid body_capture_limit metadata") invalid_recording)
positive_limit (err e) = err (wrap (codes "invalid body_capture_limit metadata") invalid_recording)

-- `diffResponseBodyLimit`; `parse_int` is `strconv.ParseInt` for base 10 and 64 bits.
unfoldable pub diff_response_body_limit : (Str → Result ℤ) → MetadataReader → Result ℕ
unfolding is_not_found positive_limit
diff_response_body_limit parse_int metadata = elim (metadata (codes "body_capture_limit")) [
  | err e ↦
      if is_not_found e
      then ok default_response_body_capture_limit
      else err (wrap (codes "read recording body capture limit") e)
  | ok value ↦ positive_limit (parse_int (trim_space value))
]
