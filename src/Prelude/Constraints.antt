-- ===== src/Prelude/Constraints.antt =====
-- Unique constraints: `clash x y` says that two rows may not stand in a table together.
use Prim.Native.Nat.{ℕ, ◌+◌}
use mathlib.Core.Path.{◌≡◌, refl, ◌∙◌}
use mathlib.Core.Logic.{inl, inr}
use mathlib.Core.Bool.{Bool, true, false}
use mathlib.Core.Option.{none, some}
use mathlib.Core.List.{List, [], ◌∷◌, ◌++◌}
use native.Mathlib.Omega.{arith}
use package.boutique_backend.Prelude.Tests.{Bool-cases, if◌then◌else◌}
use package.boutique_backend.Prelude.Tables.{reject, select, exists, find?, modify, sum_of, All}

module _ {A : Type 0} where
  abbrev pub IsDistinct : (A → A → Bool) → List A → Type 0
  IsDistinct clash [] = Unit
  IsDistinct clash (x ∷ xs) = (exists (clash x) xs ≡ false) × IsDistinct clash xs

  pub exists-append :
      (p : A → Bool) (xs ys : List A)
      → exists p xs ≡ false
      → exists p ys ≡ false
      → exists p (xs ++ ys) ≡ false
  exists-append p [] ys h k = k
  exists-append p (x ∷ xs) ys h k = ground (arith, exists-append p xs ys)

  -- An accepted row keeps the constraint.
  pub append-IsDistinct :
      (clash : A → A → Bool) (symmetric : (x y : A) → clash x y ≡ clash y x) (new : A) (xs : List A)
      → IsDistinct clash xs
      → exists (clash new) xs ≡ false
      → IsDistinct clash (xs ++ new ∷ [])
  append-IsDistinct clash symmetric new [] d h = (refl, tt)
  append-IsDistinct clash symmetric new (x ∷ xs) d h = (
    exists-append (clash x) xs (new ∷ []) d.0 (ground (arith, symmetric x new)),
    append-IsDistinct clash symmetric new xs d.1 (ground arith),
  )

  pub select-eq-nil : (p : A → Bool) (xs : List A) → exists p xs ≡ false → select p xs ≡ []
  select-eq-nil p [] h = refl
  select-eq-nil p (x ∷ xs) h = ground (arith, select-eq-nil p xs)

  pub exists_of_clash :
      (p : A → Bool) (clash : A → A → Bool) (x : A)
      → ((y : A) → p y ≡ true → clash x y ≡ true)
      → (xs : List A) → exists (clash x) xs ≡ false
      → exists p xs ≡ false
  exists_of_clash p clash x both [] h = refl
  exists_of_clash p clash x both (y ∷ xs) h =
      ground (arith, both y, exists_of_clash p clash x both xs)

  -- Where two rows that fit would clash, at most one row fits.
  pub select_unique :
      (p : A → Bool) (clash : A → A → Bool)
      → ((x y : A) → p x ≡ true → p y ≡ true → clash x y ≡ true)
      → (xs : List A) (x : A) → IsDistinct clash xs
      → find? p xs ≡ some x
      → select p xs ≡ x ∷ []
  select_unique p clash both [] x d h = cc
  select_unique p clash both (y ∷ xs) x d h = elim (Bool-cases (p y)) [
    | inl e ↦
        ground (arith, select-eq-nil p xs (exists_of_clash p clash y (λ z. both y z e) xs d.0))
    | inr e ↦ ground (arith, select_unique p clash both xs x d.1)
  ]

  pub find-eq-none : (p : A → Bool) (xs : List A) → exists p xs ≡ false → find? p xs ≡ none
  find-eq-none p [] h = refl
  find-eq-none p (x ∷ xs) h = ground (arith, find-eq-none p xs)

  pub exists_of_select-eq-nil :
      (p : A → Bool) (xs : List A) → select p xs ≡ [] → exists p xs ≡ false
  exists_of_select-eq-nil p [] h = refl
  exists_of_select-eq-nil p (x ∷ xs) h = ground (arith, exists_of_select-eq-nil p xs)

  -- An update that leaves the constrained fields alone keeps the constraint.
  pub exists-modify :
      (q p : A → Bool) (f : A → A)
      → ((y : A) → q (f y) ≡ q y)
      → (xs : List A) → exists q (modify p f xs) ≡ exists q xs
  exists-modify q p f same [] = refl
  exists-modify q p f same (x ∷ xs) = ground (arith, same x, exists-modify q p f same xs)

  exists_same : (p q : A → Bool) → ((y : A) → p y ≡ q y) → (xs : List A) → exists p xs ≡ exists q xs
  exists_same p q same [] = refl
  exists_same p q same (x ∷ xs) = ground (arith, same x, exists_same p q same xs)

  modified_first :
      (clash : A → A → Bool) (p : A → Bool) (f : A → A)
      → ((x y : A) → clash (f x) y ≡ clash x y)
      → (x : A) (xs : List A) → exists (clash x) xs ≡ false
      → exists (clash (if p x then f x else x)) xs ≡ false
  modified_first clash p f left x xs h = elim (Bool-cases (p x)) [
    | inl e ↦ rw e (exists_same (clash (f x)) (clash x) (left x) xs ∙ h)
    | inr e ↦ rw e h
  ]

  pub modify-IsDistinct :
      (clash : A → A → Bool) (p : A → Bool) (f : A → A)
      → ((x y : A) → clash x (f y) ≡ clash x y)
      → ((x y : A) → clash (f x) y ≡ clash x y)
      → (xs : List A) → IsDistinct clash xs
      → IsDistinct clash (modify p f xs)
  modify-IsDistinct clash p f right left [] d = tt
  modify-IsDistinct clash p f right left (x ∷ xs) d = (
    modified_first clash p f left x (modify p f xs)
        (exists-modify (clash x) p f (right x) xs ∙ d.0),
    modify-IsDistinct clash p f right left xs d.1,
  )

  exists-reject_le :
      (q p : A → Bool) (xs : List A) → exists q xs ≡ false → exists q (reject p xs) ≡ false
  exists-reject_le q p [] h = refl
  exists-reject_le q p (x ∷ xs) h = ground (arith, exists-reject_le q p xs)

  -- A deletion keeps the constraint.
  pub reject-IsDistinct :
      (clash : A → A → Bool) (p : A → Bool) (xs : List A)
      → IsDistinct clash xs
      → IsDistinct clash (reject p xs)
  reject-IsDistinct clash p [] d = tt
  reject-IsDistinct clash p (x ∷ xs) d = elim (Bool-cases (p x)) [
    | inl e ↦ rw e (reject-IsDistinct clash p xs d.1)
    | inr e ↦ rw e (exists-reject_le (clash x) p xs d.0, reject-IsDistinct clash p xs d.1)
  ]

  pub select-append :
      (p : A → Bool) (xs ys : List A) → select p (xs ++ ys) ≡ select p xs ++ select p ys
  select-append p [] ys = refl
  select-append p (x ∷ xs) ys = ground (arith, select-append p xs ys)

  pub sum_of-append : (f : A → ℕ) (xs ys : List A) → sum_of f (xs ++ ys) ≡ sum_of f xs + sum_of f ys
  sum_of-append f [] ys = omega arith
  sum_of-append f (x ∷ xs) ys = omega (arith, sum_of-append f xs ys)

  pub All-append {κ} : (P : A → Type κ) (xs ys : List A) → All P xs → All P ys → All P (xs ++ ys)
  All-append P [] ys h k = k
  All-append P (x ∷ xs) ys h k = (h.0, All-append P xs ys h.1 k)

  pub exists-append_left :
      (p : A → Bool) (xs ys : List A) → exists p xs ≡ true → exists p (xs ++ ys) ≡ true
  exists-append_left p [] ys h = cc
  exists-append_left p (x ∷ xs) ys h = ground (arith, exists-append_left p xs ys)

  pub exists-append_right :
      (p : A → Bool) (xs ys : List A) → exists p ys ≡ true → exists p (xs ++ ys) ≡ true
  exists-append_right p [] ys h = h
  exists-append_right p (x ∷ xs) ys h = ground (arith, exists-append_right p xs ys)
