-- ===== src/Prelude/Sorting.antt =====
-- `qs.order_by(…)`: a stable insertion sort, so rows that tie keep the order of the table.
use mathlib.Core.Bool.{Bool}
use mathlib.Core.Path.{◌≡◌, refl}
use mathlib.Core.Option.{none}
use mathlib.Core.List.{List, [], ◌∷◌}
use native.Mathlib.Omega.{arith}
use package.boutique_backend.Prelude.Tests.{if◌then◌else◌}
use package.boutique_backend.Prelude.Tables.{head?}

module _ {A : Type 0} where
  abbrev pub insert_by : (A → A → Bool) → A → List A → List A
  insert_by before x [] = x ∷ []
  insert_by before x (y ∷ ys) = if before y x then y ∷ insert_by before x ys else x ∷ y ∷ ys

  -- `before y x` holds when `y` has to stand in front of `x`.
  abbrev pub order_by : (A → A → Bool) → List A → List A
  order_by before [] = []
  order_by before (x ∷ xs) = insert_by before x (order_by before xs)

  insert_by_nonempty :
      (before : A → A → Bool) (x : A) (ys : List A) → ¬ (head? (insert_by before x ys) ≡ none)
  insert_by_nonempty before x [] h = cc
  insert_by_nonempty before x (y ∷ ys) h = ground arith

  -- Only the empty list has no first row.
  pub order_by_eq_nil :
      (before : A → A → Bool) (xs : List A) → head? (order_by before xs) ≡ none → xs ≡ []
  order_by_eq_nil before [] h = refl
  order_by_eq_nil before (x ∷ xs) h = absurd (insert_by_nonempty before x (order_by before xs) h)
