-- ===== src/Prelude/Reordering.antt =====
-- A sort keeps a unique constraint.
use mathlib.Core.Path.{◌≡◌, refl, ◌∙◌}
use mathlib.Core.Logic.{inl, inr}
use mathlib.Core.Bool.{Bool, false, ◌||◌}
use mathlib.Core.List.{List, [], ◌∷◌}
use native.Mathlib.Omega.{arith}
use package.boutique_backend.Prelude.Tests.{Bool-cases}
use package.boutique_backend.Prelude.Tables.{exists}
use package.boutique_backend.Prelude.Constraints.{IsDistinct}
use package.boutique_backend.Prelude.Sorting.{insert_by, order_by}

module _ {A : Type 0} (clash : A → A → Bool) (comm : (x y : A) → clash x y ≡ clash y x)
    (before : A → A → Bool) where
  exists-insert_by :
      (p : A → Bool) (x : A) (ys : List A) → exists p (insert_by before x ys) ≡ (p x || exists p ys)
  exists-insert_by p x [] = ground arith
  exists-insert_by p x (y ∷ ys) = ground (arith, exists-insert_by p x ys)

  insert_by-IsDistinct :
      (x : A) (ys : List A)
      → exists (clash x) ys ≡ false
      → IsDistinct clash ys
      → IsDistinct clash (insert_by before x ys)
  insert_by-IsDistinct x [] h d = (refl, tt)
  insert_by-IsDistinct x (y ∷ ys) h d = elim (Bool-cases (before y x)) [
    | inl e ↦ rw e (
      ground (arith, exists-insert_by (clash y) x ys, comm x y, h, d.0),
      insert_by-IsDistinct x ys (ground (arith, h)) d.1,
    )
    | inr e ↦ rw e (h, d)
  ]

  exists-order_by : (p : A → Bool) (xs : List A) → exists p (order_by before xs) ≡ exists p xs
  exists-order_by p [] = refl
  exists-order_by p (x ∷ xs) =
      ground (arith, exists-insert_by p x (order_by before xs), exists-order_by p xs)

  pub order_by-IsDistinct :
      (xs : List A) → IsDistinct clash xs → IsDistinct clash (order_by before xs)
  order_by-IsDistinct [] d = tt
  order_by-IsDistinct (x ∷ xs) d =
      insert_by-IsDistinct x (order_by before xs) (exists-order_by (clash x) xs ∙ d.0)
        (order_by-IsDistinct xs d.1)
