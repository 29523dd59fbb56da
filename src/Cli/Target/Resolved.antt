-- ===== src/Cli/Target/Resolved.antt =====
-- Which targets a replay runs against.
use graybox_core.Cli.Target.{
  Network, MetadataReader, contains_text, is_loopback_target, check_target, parse_target,
  target_value, resolve_execution_target,
}
use graybox_core.Failure.{ok, Result-cases, Yields, Yields-if, Yields-bind, Yields-any, Yields-ok}
use graybox_core.Platform.{Platform}
use graybox_core.Prelude.{
  Bool, true, false, not, ◌&&◌, ◌≡◌, ◌≢◌, ◌⊎◌, inl, inr, [], arith, Bool-cases,
}
use graybox_core.Text.Laws.{equal_iff}
use graybox_core.Text.{Str, codes, equal, to_lower}
use graybox_core.Url.{Url}

-- An http or https URL with a host, and with no credentials, query or fragment.
abbrev pub IsTarget : Url → Type 0
IsTarget u =
    ((u.scheme ≡ codes "http") ⊎ (u.scheme ≡ codes "https"))
    × (u.host ≢ [])
    × (u.user ≡ false)
    × (u.fragment ≡ [])
    × (u.raw_query ≡ [])

check_target-IsTarget : (parsed : Url) → Yields IsTarget (check_target parsed)
unfolding check_target
check_target-IsTarget parsed = ground (
  arith,
  equal_iff parsed.scheme (codes "http"),
  equal_iff parsed.scheme (codes "https"),
  equal_iff parsed.host [],
  equal_iff parsed.fragment [],
  equal_iff parsed.raw_query [],
)

parse_target-IsTarget : (go : Platform) (value : Str) → Yields IsTarget (parse_target go value)
unfolding parse_target
parse_target-IsTarget go value = Yields-if IsTarget (equal value []) _ _ tt (
    Yields-if IsTarget (not (contains_text value (codes "://"))) _ _ tt
      (elim (Result-cases (go.parse_url value)) [
        | inr (e, n) ↦ rw n tt
        | inl (parsed, n) ↦
            rw n (check_target-IsTarget (record parsed { scheme = to_lower parsed.scheme }))
      ]))

-- A replay runs only against an http or https URL with a host and without credentials, query or
-- fragment; and if no target is given and the original one is not explicitly allowed, only against a
-- loopback address.
pub resolve_execution_target-IsTarget :
    (go : Platform) (net : Network) (metadata : MetadataReader) (value : Str) (unsafe : Bool)
    (target : Url)
    → resolve_execution_target go net metadata value unsafe ≡ ok target
    → IsTarget target × ((value ≢ []) ⊎ (unsafe ≡ true) ⊎ (is_loopback_target net target ≡ true))
unfolding resolve_execution_target
resolve_execution_target-IsTarget go net metadata value unsafe target h =
    let allowed : Url → Type 0 =
      λ (u : Url). (value ≢ []) ⊎ (unsafe ≡ true) ⊎ (is_loopback_target net u ≡ true) in
    Yields-ok (λ u. IsTarget u × allowed u) (resolve_execution_target go net metadata value unsafe)
      target
      (Yields-bind (λ v. Unit {0}) (λ u. IsTarget u × allowed u) (target_value go metadata value) _
        (Yields-any (target_value go metadata value))
        (λ chosen t.
          Yields-bind IsTarget (λ u. IsTarget u × allowed u) (parse_target go chosen) _
            (parse_target-IsTarget go chosen)
            (λ u is.
              elim (Bool-cases (equal value [] && (not unsafe && not (is_loopback_target net u)))) [
                | inl e ↦ rw e tt
                | inr e ↦ rw e (is, ground (arith, equal_iff value []))
              ])))
      h
