-- ===== src/Replay/Headers/Overridden.antt =====
-- Where the headers of a replayed request come from.
use graybox_core.Prelude.{◌≡◌, ◌⊎◌, inl, inr, sym, List, [], ◌∷◌, All, Bool-cases}
use graybox_core.Recording.{Headers}
use graybox_core.Replay.Headers.Forwarded.{
  All-put, IsForwardable, to_lower-canonical, copy_replay_headers-IsForwardable,
}
use graybox_core.Replay.Headers.{
  canonical, add_value, add_values, remove, copy_replay_headers, apply_request_header_overrides,
}
use graybox_core.Text.{Str, equal, to_lower}

-- An override with a value has the name, whatever the case of the letters.
abbrev pub IsOverridden : Headers → Str → Type 0
IsOverridden [] name = ⊥
IsOverridden ((k, []) ∷ overrides) name = IsOverridden overrides name
IsOverridden ((k, v ∷ vs) ∷ overrides) name =
    (to_lower k ≡ to_lower name) ⊎ IsOverridden overrides name

-- The entry stands under an overridden name, or is a recorded one that may be sent.
abbrev pub IsSent : Headers → Headers → Str × List Str → Type 0
IsSent overrides src (name, values) = IsOverridden overrides name ⊎ IsForwardable src (name, values)

module _ (P : Str × List Str → Type 0) where
  All-add_value :
      (name value : Str) (h : Headers)
      → ((values : List Str) → P (canonical name, values))
      → All P h
      → All P (add_value name value h)
  unfolding add_value
  All-add_value name value h k a = All-put P (canonical name) _ h (k _) a

  All-add_values :
      (name : Str) (values : List Str) (h : Headers)
      → ((vs : List Str) → P (canonical name, vs))
      → All P h
      → All P (add_values name values h)
  unfolding add_values
  All-add_values name [] h k a = a
  All-add_values name (value ∷ values) h k a =
      All-add_values name values (add_value name value h) k (All-add_value name value h k a)

  All-remove : (k : Str) (h : Headers) → All P h → All P (remove k h)
  unfolding remove
  All-remove k [] a = tt
  All-remove k ((j, values) ∷ h) a = elim (Bool-cases (equal j k)) [
    | inl e ↦ rw (remove, e) (All-remove k h a.1)
    | inr e ↦ rw (remove, e) (a.0, All-remove k h a.1)
  ]

  All-apply_request_header_overrides :
      (dst overrides : Headers)
      → ((name : Str) (vs : List Str) → IsOverridden overrides name → P (name, vs))
      → All P dst
      → All P (apply_request_header_overrides dst overrides)
  unfolding apply_request_header_overrides
  All-apply_request_header_overrides dst [] f a = a
  All-apply_request_header_overrides dst ((name, []) ∷ overrides) f a =
      All-apply_request_header_overrides dst overrides f a
  All-apply_request_header_overrides dst ((name, v ∷ vs) ∷ overrides) f a =
      All-apply_request_header_overrides (add_values name (v ∷ vs) (remove (canonical name) dst))
        overrides (λ n ws i. f n ws (inr i))
        (All-add_values name (v ∷ vs) (remove (canonical name) dst)
          (λ ws. f (canonical name) ws (inl (sym (to_lower-canonical name))))
          (All-remove (canonical name) dst a))

-- Behind the overrides, each header is overridden or is a recorded one that may be sent.
pub overridden-IsSent :
    (overrides src : Headers)
    → All
        (IsSent overrides src)
        (apply_request_header_overrides (copy_replay_headers [] src) overrides)
overridden-IsSent overrides src =
    All-apply_request_header_overrides (IsSent overrides src) (copy_replay_headers [] src) overrides
      (λ name vs i. inl i)
      (forwarded (copy_replay_headers [] src) (copy_replay_headers-IsForwardable src))
  where
    forwarded : (h : Headers) → All (IsForwardable src) h → All (IsSent overrides src) h
    forwarded [] a = tt
    forwarded (e ∷ h) a = (inr a.0, forwarded h a.1)
