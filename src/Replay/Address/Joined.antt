-- ===== src/Replay/Address/Joined.antt =====
-- What `joinPath` and `BuildURL` compute.
use graybox_core.Failure.{ok, err}
use graybox_core.Platform.{Platform}
use graybox_core.Prelude.{
  true, false, not, ◌&&◌, ◌||◌, ◌≡◌, ◌⊎◌, ◌≢◌, Bool-cases, inl, inr, refl, ap, sym, ◌∙◌, [], ◌∷◌,
  ◌++◌, some, if◌then◌else◌, arith,
}
use mathlib.Core.List.{append_assoc}
use graybox_core.Replay.Address.{trim_slash, drop_slash, join_path, joined_url, build_url}
use graybox_core.Text.{Str, codes, equal, has_prefix}
use graybox_core.Text.Laws.{equal_iff}
use graybox_core.Url.{Url}

bare_left : (s : Str) → equal s [] || equal s (codes "/") ≡ true → trim_slash s ≡ []
unfolding trim_slash equal
bare_left [] h = ground arith
bare_left (c ∷ s) h = ground arith

bare_right : (s : Str) → equal s [] || equal s (codes "/") ≡ true → drop_slash s ≡ []
unfolding drop_slash equal
bare_right [] h = ground arith
bare_right (c ∷ []) h = ground arith
bare_right (c ∷ d ∷ s) h = ground arith

rooted :
    (s : Str)
    → (if equal s [] then codes "/" else if has_prefix s (codes "/") then s else b'/' ∷ s)
      ≡ b'/' ∷ drop_slash s
unfolding drop_slash equal has_prefix
rooted [] = ground arith
rooted (c ∷ s) = ground arith

-- The joined path is the left path without its final slash, one slash, and the right path without
-- its first slash.
pub join_path_lem :
    (left right : Str) → join_path left right ≡ trim_slash left ++ b'/' ∷ drop_slash right
unfolding join_path
join_path_lem left right = elim (Bool-cases (equal left [] || equal left (codes "/"))) [
  | inl e ↦ rw (e, bare_left left e) (rooted right)
  | inr e ↦ elim (Bool-cases (equal right [] || equal right (codes "/"))) [
    | inl f ↦ rw (e, f, bare_right right f) refl
    | inr f ↦ rw (e, f) (append_assoc (trim_slash left) (codes "/") (drop_slash right))
  ]
]

guarded :
    (target : Url)
    → not (equal target.scheme (codes "http")) && not (equal target.scheme (codes "https"))
        || equal target.host []
      ≡ false
    → ((target.scheme ≡ codes "http") ⊎ (target.scheme ≡ codes "https")) × (target.host ≢ [])
guarded target e = ground (
  arith,
  equal_iff target.scheme (codes "http"),
  equal_iff target.scheme (codes "https"),
  equal_iff target.host [],
)

ok_url : (spare u v : Url) → ok u ≡ ok v → u ≡ v
ok_url spare u v h = ap (λ r. elim r [ ok x ↦ x | err e ↦ spare ]) h

-- Where `BuildURL` gives a URL for a recorded URL that parses, the target is an http or https URL
-- with a host. The URL has the target's scheme, host and user, the recorded query, and no fragment, and
-- its path is the target's path, one slash, and the recorded path.
pub build_url-ok :
    (go : Platform) (target : Url) (recorded_url : Str) (recorded url : Url)
    → go.parse_url recorded_url ≡ ok recorded
    → build_url go (some target) recorded_url ≡ ok url
    → ((target.scheme ≡ codes "http") ⊎ (target.scheme ≡ codes "https"))
      × (target.host ≢ [])
      × (url.scheme ≡ target.scheme)
      × (url.host ≡ target.host)
      × (url.user ≡ target.user)
      × (url.raw_query ≡ recorded.raw_query)
      × (url.fragment ≡ [])
      × (url.path ≡ trim_slash target.path ++ b'/' ∷ drop_slash recorded.path)
unfolding build_url joined_url
build_url-ok go target recorded_url recorded url p h =
    elim (Bool-cases (
      not (equal target.scheme (codes "http")) && not (equal target.scheme (codes "https"))
      || equal target.host [])) [
        | inl e ↦ ground (arith, rw e at h)
        | inr e ↦
            let same = ok_url target (joined_url go target recorded) url (rw (e, p) at h) in
            let served = guarded target e in
            (
              served.0,
              served.1,
              ap Url.scheme (sym same),
              ap Url.host (sym same),
              ap Url.user (sym same),
              ap Url.raw_query (sym same),
              ap Url.fragment (sym same),
              ap Url.path (sym same) ∙ join_path_lem target.path recorded.path,
            )
      ]
