-- ===== src/Cli/Target.antt =====
-- internal/cli/target.go: the service that a recording is replayed against.
pub mod Resolved
use graybox_core.Failure.{Error, wrap, usage, is_not_found, Result, ok, err, ◌>>=◌}
use graybox_core.Platform.{Platform}
use graybox_core.Prelude.{ℕ, Bool, true, false, not, ◌&&◌, ◌||◌, [], ◌∷◌, ◌++◌, if◌then◌else◌}
use graybox_core.Text.{Str, codes, equal, has_prefix, has_suffix, to_lower}
use graybox_core.Url.{Url}

-- `strings.Contains`
unfoldable pub contains_text : Str → Str → Bool
contains_text [] p = has_prefix [] p
contains_text (c ∷ s) p = has_prefix (c ∷ s) p || contains_text s p

-- `strings.TrimSuffix(s, ".")`
unfoldable pub trim_dot : Str → Str
trim_dot [] = []
trim_dot (c ∷ s) = if equal (c ∷ s) (codes ".") then [] else c ∷ trim_dot s

-- What the target checks use of net and net/url: `URL.Hostname`, and whether a text is the IP address
-- of a loopback interface (`net.ParseIP`, `IP.IsLoopback`).
pub record Network : Type 0 where
  pub hostname : Url → Str
  pub is_loopback_ip : Str → Bool

-- `metadataReader`
abbrev pub MetadataReader : Type 0
MetadataReader = Str → Result Str

-- `isLoopbackTarget`
unfoldable pub is_loopback_target : Network → Url → Bool
is_loopback_target net target =
    let host = trim_dot (to_lower (net.hostname target)) in
    if equal host (codes "localhost") || has_suffix host (codes ".localhost")
    then true
    else net.is_loopback_ip host

-- The tests of `parseTarget` on the parsed URL, its scheme in lower case.
unfoldable pub check_target : Url → Result Url
check_target parsed =
    if not (equal parsed.scheme (codes "http")) && not (equal parsed.scheme (codes "https"))
      || equal parsed.host []
    then err (usage (codes "target must be an absolute HTTP or HTTPS URL"))
    else if parsed.user || not (equal parsed.fragment []) || not (equal parsed.raw_query [])
    then err (usage (codes "target must not contain credentials, a query, or a fragment"))
    else ok parsed

module _ (go : Platform) where
  -- `parseTarget`; the value is left out of the messages.
  unfoldable pub parse_target : Str → Result Url
  unfolding check_target
  parse_target value =
      if equal value []
      then err (usage (codes "--target is required"))
      else if not (contains_text value (codes "://"))
      then err (usage (codes "target is missing a URL scheme"))
      else (elim (go.parse_url value) [
        | err e ↦ err (usage (codes "invalid target"))
        | ok parsed ↦ check_target (record parsed { scheme = to_lower parsed.scheme })
      ])

  -- The target saved in the recording.
  unfoldable pub saved_target : MetadataReader → Result Str
  unfolding is_not_found
  saved_target metadata = elim (metadata (codes "target_url")) [
    | ok value ↦ ok value
    | err e ↦
        if is_not_found e
        then err (usage (codes "recording has no original target; provide --target"))
        else err (wrap (codes "read recording target") e)
  ]

  -- The value given, or the saved one where none is.
  unfoldable pub target_value : MetadataReader → Str → Result Str
  target_value metadata value = if equal value [] then saved_target metadata else ok value

  -- `resolveExecutionTarget`
  unfoldable pub resolve_execution_target : Network → MetadataReader → Str → Bool → Result Url
  resolve_execution_target net metadata value unsafe_original_target = do
    chosen ← target_value metadata value
    target ← parse_target chosen
    if equal value [] && (not unsafe_original_target && not (is_loopback_target net target))
        then err (usage (codes "recording target is not loopback"))
        else ok target
