-- ===== src/Prelude/Rows.antt =====
-- Rows through appends, filters and maps.
use Prim.Native.Nat.{ℕ}
use mathlib.Core.Path.{◌≡◌, refl, sym, ap, ◌∙◌}
use mathlib.Core.Logic.{◌↔◌, ◌⊎◌, inl, inr}
use mathlib.Core.Bool.{Bool, true, false, ◌&&◌, false≢true}
use mathlib.Core.Option.{some}
use mathlib.Core.List.{List, [], ◌∷◌, ◌++◌, map}
use native.Mathlib.Omega.{arith}
use package.boutique_backend.Prelude.Tests.{◌==◌, ℕ_eq, Bool-cases}
use package.boutique_backend.Prelude.Tables.{find?, length, select, exists, All}
use package.boutique_backend.Prelude.Constraints.{IsDistinct}
use package.boutique_backend.Prelude.Members.{In}

module _ {A : Type 0} where
  pub In-append : (x : A) (xs ys : List A) → In x (xs ++ ys) ↔ ((In x xs) ⊎ (In x ys))
  In-append x [] ys = (λ h. inr h, λ h. elim h [ inl i ↦ absurd i | inr i ↦ i ])
  In-append x (y ∷ xs) ys = (
    λ h. elim h [
      | inl e ↦ inl (inl e)
      | inr i ↦ elim ((In-append x xs ys).0 i) [ inl j ↦ inl (inr j) | inr j ↦ inr j ]
    ],
    λ h. elim h [
      | inl i ↦ elim i [ inl e ↦ inl e | inr j ↦ inr ((In-append x xs ys).1 (inl j)) ]
      | inr j ↦ inr ((In-append x xs ys).1 (inr j))
    ],
  )

module _ {A : Type 0} where
  exists-select :
      (p q : A → Bool) (xs : List A) → exists q xs ≡ false → exists q (select p xs) ≡ false
  exists-select p q [] h = refl
  exists-select p q (x ∷ xs) h = ground (arith, exists-select p q xs)

  pub select-IsDistinct :
      (clash : A → A → Bool) (p : A → Bool) (xs : List A)
      → IsDistinct clash xs
      → IsDistinct clash (select p xs)
  select-IsDistinct clash p [] d = tt
  select-IsDistinct clash p (x ∷ xs) d = elim (Bool-cases (p x)) [
    | inl e ↦ rw e (exists-select p (clash x) xs d.0, select-IsDistinct clash p xs d.1)
    | inr e ↦ rw e (select-IsDistinct clash p xs d.1)
  ]

  pub select-select :
      (p q r : A → Bool)
      → ((x : A) → r x ≡ (q x && p x))
      → (xs : List A) → select r xs ≡ select p (select q xs)
  select-select p q r same [] = refl
  select-select p q r same (x ∷ xs) = ground (arith, same x, select-select p q r same xs)

module _ {A : Type 0} (f : A → ℕ) where
  exists-map :
      (x : A) (xs : List A) → exists (λ y. f x == y) (map f xs) ≡ exists (λ y. f x == f y) xs
  exists-map x [] = refl
  exists-map x (y ∷ ys) = ground (arith, exists-map x ys)

  pub map-IsDistinct :
      (xs : List A) → IsDistinct (λ x y. f x == f y) xs → IsDistinct (λ x y. x == y) (map f xs)
  map-IsDistinct [] d = tt
  map-IsDistinct (x ∷ xs) d = (exists-map x xs ∙ d.0, map-IsDistinct xs d.1)

  pub length-map : (xs : List A) → length (map f xs) ≡ length xs
  length-map [] = refl
  length-map (x ∷ xs) = ap Prim.Native.Nat.suc (length-map xs)

pub All-map :
    {A B : Type 0} (P : B → Type 0) (f : A → B) (xs : List A)
    → ((x : A) → P (f x))
    → All P (map f xs)
All-map P f [] h = tt
All-map P f (x ∷ xs) h = (h x, All-map P f xs h)

module _ {A : Type 0} (p : A → Bool) where
  pub row_of_find : (x : A) (xs : List A) → find? p xs ≡ some x → In x xs × (p x ≡ true)
  row_of_find x [] h = absurd (ground (arith, h))
  row_of_find x (y ∷ ys) h = elim (Bool-cases (p y)) [
    | inl e ↦ let same : y ≡ x = ground (arith, e, h) in (inl (sym same), ap p (sym same) ∙ e)
    | inr e ↦ let (i, fits) = row_of_find x ys (rw e at h) in (inr i, fits)
  ]

  pub find_of_row : (x : A) (xs : List A) → In x xs → p x ≡ true → (y : A) × (find? p xs ≡ some y)
  find_of_row x [] i fits = absurd i
  find_of_row x (y ∷ ys) i fits = elim (Bool-cases (p y)) [
    | inl e ↦ (y, rw e refl)
    | inr e ↦ elim i [
      | inl same ↦ absurd (false≢true (sym e ∙ (ap p (sym same) ∙ fits)))
      | inr j ↦ let (z, found) = find_of_row x ys j fits in (z, rw e found)
    ]
  ]
