-- ===== src/Dict.antt =====
-- Go maps with string keys, as association lists in an order that stands for the map's iteration
-- order. A key is written once: `put` overwrites.
pub mod Laws
use graybox_core.Prelude.{
  Bool, true, false, ◌||◌, List, [], ◌∷◌, ◌++◌, Option, none, some, if◌then◌else◌,
}
use graybox_core.Text.{Str, equal}

abbrev pub Dict {ℓ} : Type ℓ → Type ℓ
Dict V = List (Str × V)

abbrev pub contains : List Str → Str → Bool
contains [] k = false
contains (j ∷ js) k = equal j k || contains js k

-- `set[key] = struct{}{}` on a set kept as the list of its members.
unfoldable pub add_key : Str → List Str → List Str
add_key k js = if contains js k then js else js ++ k ∷ []

unfoldable pub add_keys : List Str → List Str → List Str
unfolding add_key
add_keys [] js = js
add_keys (k ∷ ks) js = add_keys ks (add_key k js)

module _ {ℓ} {V : Type ℓ} where
  abbrev pub keys : Dict V → List Str
  keys [] = []
  keys ((k, v) ∷ m) = k ∷ keys m

  -- `v, present := m[k]`
  unfoldable pub lookup : Str → Dict V → Option V
  lookup k [] = none
  lookup k ((j, v) ∷ m) = if equal j k then some v else lookup k m

  -- `m[k] = v`
  unfoldable pub put : Str → V → Dict V → Dict V
  put k v [] = (k, v) ∷ []
  put k v ((j, w) ∷ m) = if equal j k then (k, v) ∷ m else (j, w) ∷ put k v m
