-- ===== src/Replay/Address.antt =====
-- `BuildURL` of internal/replay/replay.go: where a recorded request is sent.
pub mod Joined
use graybox_core.Failure.{failure, Result, err, ok, ◌>>=◌}
use graybox_core.Platform.{Platform}
use graybox_core.Prelude.{
  Bool, true, false, not, ◌&&◌, ◌||◌, [], ◌∷◌, ◌++◌, Option, none, some, if◌then◌else◌,
}
use graybox_core.Text.{Str, codes, equal, has_prefix}
use graybox_core.Url.{Url}

-- `strings.TrimSuffix(s, "/")`
unfoldable pub trim_slash : Str → Str
trim_slash [] = []
trim_slash (c ∷ s) = if equal (c ∷ s) (codes "/") then [] else c ∷ trim_slash s

-- `strings.TrimPrefix(s, "/")`
unfoldable pub drop_slash : Str → Str
drop_slash [] = []
drop_slash (c ∷ s) = if equal (c ∷ []) (codes "/") then s else c ∷ s

-- `joinPath`
unfoldable pub join_path : Str → Str → Str
unfolding trim_slash drop_slash
join_path left right =
    if equal left [] || equal left (codes "/")
    then if equal right []
      then codes "/"
      else if has_prefix right (codes "/")
      then right
      else b'/' ∷ right
    else if equal right [] || equal right (codes "/")
    then trim_slash left ++ codes "/"
    else trim_slash left ++ codes "/" ++ drop_slash right

module _ (go : Platform) where
  -- The URL that `BuildURL` makes of the target and the parsed recorded URL.
  unfoldable pub joined_url : Url → Url → Url
  unfolding join_path
  joined_url target recorded =
      let raw_path = join_path (go.escaped_path target) (go.escaped_path recorded) in
      let path = join_path target.path recorded.path in
      record target {
        fragment = [];
        raw_query = recorded.raw_query;
        force_query = recorded.force_query;
        path = path;
        raw_path = if equal raw_path path then [] else raw_path;
      }

  -- `BuildURL`
  unfoldable pub build_url : Option Url → Str → Result Url
  unfolding joined_url
  build_url none recorded_url = err (failure (codes "invalid replay target"))
  build_url (some target) recorded_url =
      if not (equal target.scheme (codes "http")) && not (equal target.scheme (codes "https"))
        || equal target.host []
      then err (failure (codes "invalid replay target"))
      else (do recorded ← go.parse_url recorded_url; ok (joined_url target recorded))
