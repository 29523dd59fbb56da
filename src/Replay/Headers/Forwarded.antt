-- ===== src/Replay/Headers/Forwarded.antt =====
-- What `copyReplayHeaders` lets through.
use graybox_core.Dict.{contains, lookup, put}
use graybox_core.Prelude.{
  Bool, true, false, ◌||◌, ◌≡◌, ◌≢◌, refl, List, [], ◌∷◌, ◌++◌, some, arith, All, All-append, ap₂,
  ◌==◌, Bool-cases, Option-cases, inl, inr,
}
use mathlib.Core.Path.{subst}
use mathlib.Core.Option.{some-injective}
use graybox_core.Recording.{Headers}
use graybox_core.Replay.Headers.{
  canonical_from, canonical, add_value, add_values, omitted_names, copy_entries,
  copy_replay_headers,
}
use graybox_core.Replay.Headers.Nominated.{
  connection_headers, IsNominated, omitted_connection, omitted_nominated,
}
use graybox_core.Sanitize.Redact.{redacted_value, is_redacted, any_redacted}
use graybox_core.Sort.Laws.{In}
use graybox_core.Text.{Str, equal, to_lower}
use graybox_core.Text.Laws.{equal_iff}

to_lower-canonical_from : (upper : Bool) (s : Str) → to_lower (canonical_from upper s) ≡ to_lower s
unfolding canonical_from to_lower
to_lower-canonical_from upper [] = refl
to_lower-canonical_from true (c ∷ s) =
    ap₂ ◌∷◌ (ground arith) (to_lower-canonical_from (c == b'-') s)
to_lower-canonical_from false (c ∷ s) =
    ap₂ ◌∷◌ (ground arith) (to_lower-canonical_from (c == b'-') s)

-- The canonical spelling of a name differs from it in letter case only.
pub to_lower-canonical : (name : Str) → to_lower (canonical name) ≡ to_lower name
unfolding canonical
to_lower-canonical name = ground (arith, to_lower-canonical_from true name)

-- An entry that the loop sends: its name is not omitted and none of its values is the marker.
abbrev Forwardable : List Str → Str × List Str → Type 0
Forwardable omitted (name, values) =
    (contains omitted (to_lower name) ≡ false) × All (λ v. is_redacted v ≡ false) values

module _ (P : Str × List Str → Type 0) where
  pub All-put : (k : Str) (v : List Str) (h : Headers) → P (k, v) → All P h → All P (put k v h)
  unfolding put
  All-put k v [] p a = (p, tt)
  All-put k v ((j, w) ∷ h) p a = elim (Bool-cases (equal j k)) [
    | inl e ↦ rw e (p, a.1)
    | inr e ↦ rw e (a.0, All-put k v h p a.1)
  ]

  -- What holds of every entry holds of the one that is found.
  pub lookup-All : (k : Str) (v : List Str) (h : Headers) → All P h → lookup k h ≡ some v → P (k, v)
  unfolding lookup
  lookup-All k v [] a e = ground arith
  lookup-All k v ((j, w) ∷ h) a e = elim (Bool-cases (equal j k)) [
    | inl q ↦
        subst (λ x. P x)
          (ap₂ (λ x y. (x, y)) ((equal_iff j k).0 q) (some-injective w v (rw q at e))) a.0
    | inr q ↦ lookup-All k v h a.1 (rw q at e)
  ]

module _ (omitted : List Str) where
  add_value-Forwardable :
      (name value : Str) (h : Headers)
      → contains omitted (to_lower name) ≡ false
      → is_redacted value ≡ false
      → All (Forwardable omitted) h
      → All (Forwardable omitted) (add_value name value h)
  unfolding add_value
  add_value-Forwardable name value h o r a = elim (Option-cases (lookup (canonical name) h)) [
    | inl e ↦ rw e (All-put (Forwardable omitted) (canonical name) (value ∷ []) h (kept, (r, tt)) a)
    | inr (values, e) ↦ rw e (
        All-put (Forwardable omitted) (canonical name) (values ++ value ∷ []) h
          (
            kept,
            All-append (λ v. is_redacted v ≡ false) values (value ∷ [])
                (lookup-All (Forwardable omitted) (canonical name) values h a e).1 (r, tt),
          )
          a)
  ]
    where
      kept : contains omitted (to_lower (canonical name)) ≡ false
      kept = rw (to_lower-canonical name) o

  add_values-Forwardable :
      (name : Str) (values : List Str) (h : Headers)
      → contains omitted (to_lower name) ≡ false
      → any_redacted values ≡ false
      → All (Forwardable omitted) h
      → All (Forwardable omitted) (add_values name values h)
  unfolding add_values any_redacted
  add_values-Forwardable name [] h o r a = a
  add_values-Forwardable name (value ∷ values) h o r a =
      add_values-Forwardable name values (add_value name value h) o (ground arith)
        (add_value-Forwardable name value h o (ground arith) a)

  copy_entries-Forwardable :
      (dst src : Headers)
      → All (Forwardable omitted) dst
      → All (Forwardable omitted) (copy_entries omitted dst src)
  unfolding copy_entries
  copy_entries-Forwardable dst [] a = a
  copy_entries-Forwardable dst ((name, values) ∷ src) a =
      elim (Bool-cases (contains omitted (to_lower name) || any_redacted values)) [
        | inl e ↦ rw e (copy_entries-Forwardable dst src a)
        | inr e ↦ rw e (
            copy_entries-Forwardable (add_values name values dst) src
              (add_values-Forwardable name values dst (ground arith) (ground arith) a))
      ]

-- An entry that may be sent: its name is not that of a connection header, the recorded Connection header
-- does not list it, and none of its values is the marker.
abbrev pub IsForwardable : Headers → Str × List Str → Type 0
IsForwardable src (name, values) =
    (¬ In (to_lower name) connection_headers)
    × (¬ IsNominated src name)
    × All (λ v. v ≢ redacted_value) values

unmarked :
    (values : List Str)
    → All (λ v. is_redacted v ≡ false) values
    → All (λ v. v ≢ redacted_value) values
unfolding is_redacted
unmarked [] h = tt
unmarked (v ∷ values) h = (λ e. ground (arith, equal_iff v redacted_value), unmarked values h.1)

Forwardable-IsForwardable :
    (src h : Headers) → All (Forwardable (omitted_names src)) h → All (IsForwardable src) h
Forwardable-IsForwardable src [] a = tt
Forwardable-IsForwardable src ((name, values) ∷ h) a = (
  (
    λ i. cc (omitted_connection src (to_lower name) i),
    λ n. cc (omitted_nominated src name n),
    unmarked values a.0.1,
  ),
  Forwardable-IsForwardable src h a.1,
)

-- Of the recorded headers only those reach the request whose names, whatever the case of the letters, are
-- neither those of connection headers nor listed by the recorded Connection header, in any spelling
-- and with white space around them; and no value sent is the redaction marker.
pub copy_replay_headers-IsForwardable :
    (src : Headers) → All (IsForwardable src) (copy_replay_headers [] src)
unfolding copy_replay_headers
copy_replay_headers-IsForwardable src =
    Forwardable-IsForwardable src (copy_replay_headers [] src)
      (copy_entries-Forwardable (omitted_names src) [] src tt)
