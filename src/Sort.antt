-- ===== src/Sort.antt =====
-- `sort.SliceStable`, for a `less` that depends on the elements alone: an insertion sort, in which
-- an element stays before the later ones that are not less. A stable sort has one result, so the
-- algorithm of the Go library does not matter.
pub mod Laws
use albion_market_api.Prelude.{Bool, List, [], ◌∷◌, if◌then◌else◌}

module _ {A : Type 0} (less : A → A → Bool) where
  unfoldable pub insert : A → List A → List A
  insert x [] = x ∷ []
  insert x (y ∷ ys) = let rest = insert x ys in if less y x then y ∷ rest else x ∷ y ∷ ys

  unfoldable pub sort_stable : List A → List A
  unfolding insert
  sort_stable [] = []
  sort_stable (x ∷ xs) = insert x (sort_stable xs)
