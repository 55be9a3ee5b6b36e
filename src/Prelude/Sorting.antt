-- ===== src/Prelude/Sorting.antt =====
-- Python's `sorted` on items with a text as key: equal keys keep their order.
use Prim.Native.String.{String, compare}
use Prim.Native.Nat.{Ordering}
use mathlib.Core.List.{List, [], ◌∷◌}

module _ {ℓ} {A : Type ℓ} (key : A → String) where
  -- before the first item whose key is no less
  unfoldable pub insert_by : A → List A → List A
  insert_by x [] = x ∷ []
  insert_by x (y ∷ ys) = elim (compare (key y) (key x)) [
    | Ordering.lt ↦ y ∷ insert_by x ys
    | _ ↦ x ∷ y ∷ ys
  ]

  unfoldable pub sorted_by : List A → List A
  unfolding insert_by
  sorted_by [] = []
  sorted_by (x ∷ xs) = insert_by x (sorted_by xs)

unfoldable pub sorted : List String → List String
unfolding sorted_by
sorted = sorted_by (λ s. s)
