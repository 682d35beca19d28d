-- ===== src/Prelude/Tables.antt =====
-- A table is the list of its rows, in the order of insertion. These are the query-set operations
-- that the program's services and selectors are built from.
use Prim.Native.Nat.{ℕ, suc, ◌+◌}
use mathlib.Core.Bool.{Bool, true, false}
use mathlib.Core.Option.{Option, none, some}
use mathlib.Core.List.{List, [], ◌∷◌}
use package.boutique_backend.Prelude.Tests.{if◌then◌else◌, Eq, ◌==◌}

module _ {ℓ} {A : Type ℓ} where
  abbrev pub length : List A → ℕ
  length [] = 0
  length (x ∷ xs) = suc (length xs)

  -- `qs.filter(p)`
  abbrev pub select : (A → Bool) → List A → List A
  select p [] = []
  select p (x ∷ xs) = let rest = select p xs in if p x then x ∷ rest else rest

  -- `qs.filter(p).delete()`: the rows that stay
  abbrev pub reject : (A → Bool) → List A → List A
  reject p [] = []
  reject p (x ∷ xs) = let rest = reject p xs in if p x then rest else x ∷ rest

  -- `qs.filter(p).exists()`
  abbrev pub exists : (A → Bool) → List A → Bool
  exists p [] = false
  exists p (x ∷ xs) = if p x then true else exists p xs

  -- `qs.get(p)` where at most one row fits
  abbrev pub find? : (A → Bool) → List A → Option A
  find? p [] = none
  find? p (x ∷ xs) = if p x then some x else find? p xs

  -- `UPDATE … WHERE p`
  abbrev pub modify : (A → Bool) → (A → A) → List A → List A
  modify p f [] = []
  modify p f (x ∷ xs) = (if p x then f x else x) ∷ modify p f xs

  abbrev pub head? : List A → Option A
  head? [] = none
  head? (x ∷ xs) = some x

  abbrev pub sum_of : (A → ℕ) → List A → ℕ
  sum_of f [] = 0
  sum_of f (x ∷ xs) = f x + sum_of f xs

  -- How many rows fit.
  abbrev pub count : (A → Bool) → List A → ℕ
  count p [] = 0
  count p (x ∷ xs) = (if p x then 1 else 0) + count p xs

  abbrev pub All {κ} : (A → Type κ) → List A → Type κ
  All P [] = Unit
  All P (x ∷ xs) = P x × All P xs

  abbrev pub is_empty : List A → Bool
  is_empty [] = true
  is_empty (x ∷ xs) = false

module _ {A : Type 0} ⦃e : Eq A⦄ where
  -- `x in xs`
  abbrev pub elem : A → List A → Bool
  elem a [] = false
  elem a (x ∷ xs) = if x == a then true else elem a xs

  -- `set(xs)`, as the list of its distinct elements
  abbrev pub dedup : List A → List A
  dedup [] = []
  dedup (x ∷ xs) = let rest = dedup xs in if elem x rest then rest else x ∷ rest
