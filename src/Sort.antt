-- ===== src/Sort.antt =====
-- `sort.Strings` and `sort.Slice`: the elements in ascending order. Graybox sorts the distinct keys
-- of maps, for which the ascending order is the only one, whatever the algorithm.
pub mod Laws
use graybox_core.Prelude.{Bool, List, [], ◌∷◌, ◌++◌, if◌then◌else◌}
use graybox_core.Text.{Str, equal, less}

module _ {ℓ} {A : Type ℓ} (lt : A → A → Bool) where
  unfoldable pub insert_by : A → List A → List A
  insert_by x [] = x ∷ []
  insert_by x (y ∷ ys) = if lt y x then y ∷ insert_by x ys else x ∷ y ∷ ys

  unfoldable pub sort_by : List A → List A
  unfolding insert_by
  sort_by [] = []
  sort_by (x ∷ xs) = insert_by x (sort_by xs)

unfoldable pub sort_strings : List Str → List Str
unfolding sort_by less
sort_strings = sort_by less
