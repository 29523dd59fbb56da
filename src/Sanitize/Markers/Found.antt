-- ===== src/Sanitize/Markers/Found.antt =====
-- The markers that `WithRecordedMarkers` and `WithRecordedQuery` find are all those that stand there.
use graybox_core.Diff.Location.{escape_token}
use graybox_core.Json.{
  Json, null, boolean, number, string, array, object, Items, cons, Fields, field,
}
use graybox_core.Platform.{Values}
use graybox_core.Prelude.{
  ℕ, suc, true, ◌≡◌, ◌≢◌, inl, inr, refl, sym, ap, List, [], ◌∷◌, ◌++◌, arith, Bool-cases,
}
use graybox_core.Sanitize.Markers.{
  markers, field_markers, item_markers, marker_pointers, redacted_keys,
}
use graybox_core.Sanitize.Redact.{redacted_value, is_redacted, any_redacted}
use graybox_core.Sort.Laws.{In, sort_by-In}
use graybox_core.Sort.{sort_strings}
use graybox_core.Text.Laws.{equal_iff, equal_self}
use graybox_core.Text.{Str, equal, itoa, less}
use mathlib.Core.Path.{subst}

-- The marker is the value, or stands somewhere in it.
mutual
  pub data Holds : Json → Type 0 where
    held : Holds (string redacted_value)
    held_in_array : {vs : Items} → AnyItem vs → Holds (array vs)
    held_in_object : {fs : Fields} → AnyField fs → Holds (object fs)

  pub data AnyItem : Items → Type 0 where
    first_item : {v : Json} {vs : Items} → Holds v → AnyItem (cons v vs)
    later_item : {v : Json} {vs : Items} → AnyItem vs → AnyItem (cons v vs)

  pub data AnyField : Fields → Type 0 where
    first_field : {k : Str} {v : Json} {fs : Fields} → Holds v → AnyField (field k v fs)
    later_field : {k : Str} {v : Json} {fs : Fields} → AnyField fs → AnyField (field k v fs)

-- The marker stands in an array or object; a body that is the marker as a whole is not meant.
pub data HoldsBelow : Json → Type 0 where
  below_array : {vs : Items} → AnyItem vs → HoldsBelow (array vs)
  below_object : {fs : Fields} → AnyField fs → HoldsBelow (object fs)

-- A value of a query or form is the marker.
abbrev pub HasMarker : Values → Type 0
HasMarker values =
    (key : Str) × (items : List Str) × In (key, items) values × In redacted_value items

append-ne : (a b : List Str) → a ≢ [] → a ++ b ≢ []
append-ne [] b n e = n refl
append-ne (x ∷ a) b n e = cc

pub append-ne_right : (a b : List Str) → b ≢ [] → a ++ b ≢ []
append-ne_right [] b n e = n e
append-ne_right (x ∷ a) b n e = cc

below-ne : (pointer token : Str) → pointer ++ b'/' ∷ token ≢ []
below-ne [] token e = cc
below-ne (c ∷ pointer) token e = cc

marked_here : is_redacted redacted_value ≡ true
unfolding is_redacted
marked_here = equal_self redacted_value

mutual
  unfolding markers equal

  Holds-markers : {v : Json} (pointer : Str) → pointer ≢ [] → Holds v → markers v pointer ≢ []
  Holds-markers [] n held e = n refl
  Holds-markers (c ∷ pointer) n held e = cc (rw marked_here at e)
  Holds-markers pointer n (held_in_array h) e = AnyItem-markers 0 pointer h e
  Holds-markers pointer n (held_in_object h) e = AnyField-markers pointer h e

  AnyItem-markers :
      {vs : Items} (i : ℕ) (pointer : Str) → AnyItem vs → item_markers vs i pointer ≢ []
  AnyItem-markers i pointer (first_item {v} {vs} h) =
      append-ne (markers v (pointer ++ b'/' ∷ itoa i)) (item_markers vs (suc i) pointer)
        (Holds-markers (pointer ++ b'/' ∷ itoa i) (below-ne pointer (itoa i)) h)
  AnyItem-markers i pointer (later_item {v} {vs} h) =
      append-ne_right (markers v (pointer ++ b'/' ∷ itoa i)) (item_markers vs (suc i) pointer)
        (AnyItem-markers (suc i) pointer h)

  AnyField-markers : {fs : Fields} (pointer : Str) → AnyField fs → field_markers fs pointer ≢ []
  AnyField-markers pointer (first_field {k} {v} {fs} h) =
      append-ne (markers v (pointer ++ b'/' ∷ escape_token k)) (field_markers fs pointer)
        (Holds-markers (pointer ++ b'/' ∷ escape_token k) (below-ne pointer (escape_token k)) h)
  AnyField-markers pointer (later_field {k} {v} {fs} h) =
      append-ne_right (markers v (pointer ++ b'/' ∷ escape_token k)) (field_markers fs pointer)
        (AnyField-markers pointer h)

-- A marker in a decoded body has a pointer.
pub HoldsBelow-marker_pointers : (v : Json) → HoldsBelow v → marker_pointers v [] ≢ []
unfolding marker_pointers markers
HoldsBelow-marker_pointers (array vs) (below_array h) = AnyItem-markers 0 [] h
HoldsBelow-marker_pointers (object fs) (below_object h) = AnyField-markers [] h
HoldsBelow-marker_pointers null h = elim h [ ]
HoldsBelow-marker_pointers (boolean b) h = elim h [ ]
HoldsBelow-marker_pointers (number n) h = elim h [ ]
HoldsBelow-marker_pointers (string s) h = elim h [ ]

In-any_redacted : (items : List Str) → In redacted_value items → any_redacted items ≡ true
unfolding any_redacted is_redacted
In-any_redacted [] h = absurd h
In-any_redacted (item ∷ items) (inl p) = ground (arith, (equal_iff item redacted_value).1 (sym p))
In-any_redacted (item ∷ items) (inr m) = ground (arith, In-any_redacted items m)

-- A field with a marked value has its key found.
pub HasMarker-redacted_keys : (values : Values) → HasMarker values → redacted_keys values ≢ []
unfolding redacted_keys
HasMarker-redacted_keys [] (key, items, i, m) e = absurd i
HasMarker-redacted_keys ((k, vs) ∷ values) (key, items, inl p, m) e =
    let found = In-any_redacted vs (subst (λ x. In redacted_value x) (ap (λ x. x.1) p) m) in
    cc (rw (redacted_keys, found) at e)
HasMarker-redacted_keys ((k, vs) ∷ values) (key, items, inr i, m) e =
    elim (Bool-cases (any_redacted vs)) [
      | inl b ↦ cc (rw (redacted_keys, b) at e)
      | inr b ↦ HasMarker-redacted_keys values (key, items, i, m) (rw (redacted_keys, b) at e)
    ]

-- Sorting loses nothing.
pub sort_strings-ne : (names : List Str) → names ≢ [] → sort_strings names ≢ []
unfolding sort_strings
sort_strings-ne [] n e = n refl
sort_strings-ne (name ∷ names) n e =
    subst (λ l. In name l) e (sort_by-In less name (name ∷ names) (inl refl))
