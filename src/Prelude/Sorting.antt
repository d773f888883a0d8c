-- ===== src/Prelude/Sorting.antt =====
-- `ORDER BY` and `sorted`.
use mathlib.Core.Bool.{Bool}
use mathlib.Core.List.{List, [], ◌∷◌}
use ai_customer_support_plat.Prelude.Tests.{if◌then◌else◌}

module _ {A : Type 0} where
  unfoldable pub insert : (A → A → Bool) → A → List A → List A
  insert before x [] = x ∷ []
  insert before x (y ∷ ys) = if before y x then y ∷ insert before x ys else x ∷ y ∷ ys

  -- A stable sort: equal elements keep their order.
  unfoldable pub sort_by : (A → A → Bool) → List A → List A
  unfolding insert
  sort_by before [] = []
  sort_by before (x ∷ xs) = insert before x (sort_by before xs)
