-- ===== src/Prelude/Members.antt =====
-- Which rows a query returns: membership through filters, sorts and maps, and the order of a sort.
use mathlib.Core.Path.{◌≡◌, refl, sym, ◌∙◌}
use mathlib.Core.Logic.{◌↔◌, ◌⊎◌, inl, inr}
use mathlib.Core.Bool.{Bool, true, false, false≢true}
use mathlib.Core.List.{List, [], ◌∷◌}
use native.Mathlib.Omega.{arith}
use package.boutique_backend.Prelude.Tests.{Bool-cases}
use package.boutique_backend.Prelude.Tables.{select, exists, modify, All}
use package.boutique_backend.Prelude.Constraints.{IsDistinct, exists_of_clash, select-eq-nil}
use package.boutique_backend.Prelude.Sorting.{insert_by, order_by}

module _ {A : Type 0} where
  -- `x` is a row of the list.
  abbrev pub In : A → List A → Type 0
  In x [] = ⊥
  In x (y ∷ ys) = (x ≡ y) ⊎ In x ys

  row_of_select : (p : A → Bool) (x : A) (xs : List A) → In x (select p xs) → In x xs × (p x ≡ true)
  row_of_select p x [] h = absurd h
  row_of_select p x (y ∷ ys) h = elim (Bool-cases (p y)) [
    | inl e ↦ first_or_rest p x y ys e (rw e at h) (row_of_select p x ys)
    | inr e ↦ let (i, px) = row_of_select p x ys (rw e at h) in (inr i, px)
  ]
    where
      first_or_rest :
          (p : A → Bool) (x y : A) (ys : List A)
          → p y ≡ true
          → (x ≡ y) ⊎ In x (select p ys)
          → (In x (select p ys) → In x ys × (p x ≡ true))
          → In x (y ∷ ys) × (p x ≡ true)
      first_or_rest p x y ys e (inl same) rest = (inl same, rw same e)
      first_or_rest p x y ys e (inr h) rest = (inr (rest h).0, (rest h).1)

  select_of_row : (p : A → Bool) (x : A) (xs : List A) → In x xs → p x ≡ true → In x (select p xs)
  select_of_row p x [] h px = absurd h
  select_of_row p x (y ∷ ys) (inl same) px = rw ((rw same at px)) (inl same)
  select_of_row p x (y ∷ ys) (inr h) px = elim (Bool-cases (p y)) [
    | inl e ↦ rw e (inr (select_of_row p x ys h px))
    | inr e ↦ rw e (select_of_row p x ys h px)
  ]

  pub In-select :
      (p : A → Bool) (x : A) (xs : List A) → In x (select p xs) ↔ (In x xs × (p x ≡ true))
  In-select p x xs = (row_of_select p x xs, λ h. select_of_row p x xs h.0 h.1)

  insert_row :
      (before : A → A → Bool) (x y : A) (ys : List A) → In x (y ∷ ys) → In x (insert_by before y ys)
  insert_row before x y [] h = h
  insert_row before x y (z ∷ zs) h = elim (Bool-cases (before z y)) [
    | inl e ↦ rw e (swapped before x y z zs h (insert_row before x y zs))
    | inr e ↦ rw e h
  ]
    where
      swapped :
          (before : A → A → Bool) (x y z : A) (zs : List A)
          → In x (y ∷ z ∷ zs)
          → (In x (y ∷ zs) → In x (insert_by before y zs))
          → In x (z ∷ insert_by before y zs)
      swapped before x y z zs (inl e) rec = inr (rec (inl e))
      swapped before x y z zs (inr (inl e)) rec = inl e
      swapped before x y z zs (inr (inr h)) rec = inr (rec (inr h))

  row_of_insert :
      (before : A → A → Bool) (x y : A) (ys : List A) → In x (insert_by before y ys) → In x (y ∷ ys)
  row_of_insert before x y [] h = h
  row_of_insert before x y (z ∷ zs) h = elim (Bool-cases (before z y)) [
    | inl e ↦ swapped before x y z zs (rw e at h) (row_of_insert before x y zs)
    | inr e ↦ rw e at h
  ]
    where
      swapped :
          (before : A → A → Bool) (x y z : A) (zs : List A)
          → In x (z ∷ insert_by before y zs)
          → (In x (insert_by before y zs) → In x (y ∷ zs))
          → In x (y ∷ z ∷ zs)
      swapped before x y z zs (inl e) rec = inr (inl e)
      swapped before x y z zs (inr h) rec = under x y z zs (rec h)
        where
          under : (x y z : A) (zs : List A) → In x (y ∷ zs) → In x (y ∷ z ∷ zs)
          under x y z zs (inl e) = inl e
          under x y z zs (inr h) = inr (inr h)

  In-tail : (x y : A) (xs ys : List A) → (In x xs → In x ys) → In x (y ∷ xs) → In x (y ∷ ys)
  In-tail x y xs ys f (inl e) = inl e
  In-tail x y xs ys f (inr h) = inr (f h)

  -- Sorting loses no row and adds none.
  pub In-order_by :
      (before : A → A → Bool) (x : A) (xs : List A) → In x (order_by before xs) ↔ In x xs
  In-order_by before x [] = (λ h. h, λ h. h)
  In-order_by before x (y ∷ ys) = (
    λ h.
        In-tail x y (order_by before ys) ys (In-order_by before x ys).0
          (row_of_insert before x y (order_by before ys) h),
    λ h.
        insert_row before x y (order_by before ys)
          (In-tail x y ys (order_by before ys) (In-order_by before x ys).1 h),
  )

  -- No row has to stand in front of an earlier one.
  abbrev pub IsSorted : (A → A → Bool) → List A → Type 0
  IsSorted before [] = Unit
  IsSorted before (x ∷ xs) = All (λ y. before y x ≡ false) xs × IsSorted before xs

  All-implies : (P Q : A → Type 0) → ((x : A) → P x → Q x) → (xs : List A) → All P xs → All Q xs
  All-implies P Q f [] h = tt
  All-implies P Q f (x ∷ xs) h = (f x h.0, All-implies P Q f xs h.1)

  All-insert_by :
      (P : A → Type 0) (before : A → A → Bool) (x : A) (ys : List A)
      → P x
      → All P ys
      → All P (insert_by before x ys)
  All-insert_by P before x [] px h = (px, tt)
  All-insert_by P before x (y ∷ ys) px h = elim (Bool-cases (before y x)) [
    | inl e ↦ rw e (h.0, All-insert_by P before x ys px h.1)
    | inr e ↦ rw e (px, h)
  ]

  module _ (before : A → A → Bool) (asymmetric : (x y : A) → before y x ≡ true → before x y ≡ false)
      (chained : (x y z : A) → before y x ≡ false → before z y ≡ false → before z x ≡ false) where
    insert_by-IsSorted :
        (x : A) (ys : List A) → IsSorted before ys → IsSorted before (insert_by before x ys)
    insert_by-IsSorted x [] s = (tt, tt)
    insert_by-IsSorted x (y ∷ ys) s = elim (Bool-cases (before y x)) [
      | inl e ↦ rw e (
        All-insert_by (λ z. before z y ≡ false) before x ys (asymmetric x y e) s.0,
        insert_by-IsSorted x ys s.1,
      )
      | inr e ↦ rw e (
        (
          e,
          All-implies (λ z. before z y ≡ false) (λ z. before z x ≡ false) (λ z h. chained x y z e h)
              ys s.0,
        ),
        s,
      )
    ]

    pub order_by-IsSorted : (xs : List A) → IsSorted before (order_by before xs)
    order_by-IsSorted [] = tt
    order_by-IsSorted (x ∷ xs) = insert_by-IsSorted x (order_by before xs) (order_by-IsSorted xs)

  pub exists_of_In :
      (p : A → Bool) (x : A) (xs : List A) → In x xs → p x ≡ true → exists p xs ≡ true
  exists_of_In p x [] h px = absurd h
  exists_of_In p x (y ∷ ys) (inl same) px = rw ((rw same at px)) refl
  exists_of_In p x (y ∷ ys) (inr h) px = ground (arith, exists_of_In p x ys h px)

  pub none_of_exists :
      (p : A → Bool) (x : A) (xs : List A) → exists p xs ≡ false → In x xs → p x ≡ false
  none_of_exists p x xs none_fits h = elim (Bool-cases (p x)) [
    | inl fits ↦ absurd (false≢true (sym none_fits ∙ exists_of_In p x xs h fits))
    | inr e ↦ e
  ]

  -- Where two rows that fit would clash, a row that fits is the whole answer.
  pub select_of_In :
      (p : A → Bool) (clash : A → A → Bool)
      → ((x y : A) → p x ≡ true → p y ≡ true → clash x y ≡ true)
      → (x : A) (xs : List A) → IsDistinct clash xs
      → In x xs
      → p x ≡ true
      → select p xs ≡ x ∷ []
  select_of_In p clash both x [] d h px = absurd h
  select_of_In p clash both x (y ∷ ys) d (inl same) px =
      let py = rw same at px in
      rw (py, select-eq-nil p ys (exists_of_clash p clash y (λ z. both y z py) ys d.0), same) refl
  select_of_In p clash both x (y ∷ ys) d (inr h) px = elim (Bool-cases (p y)) [
    | inl py ↦ absurd (false≢true (sym d.0 ∙ exists_of_In (clash y) x ys h (both y x py px)))
    | inr e ↦ rw e (select_of_In p clash both x ys d.1 h px)
  ]

  -- An update leaves the other rows where they are.
  pub In-modify :
      (p : A → Bool) (f : A → A) (x : A) (xs : List A)
      → In x xs
      → p x ≡ false
      → In x (modify p f xs)
  In-modify p f x [] h px = absurd h
  In-modify p f x (y ∷ ys) (inl same) px = inl (rw ((rw same at px)) same)
  In-modify p f x (y ∷ ys) (inr h) px = inr (In-modify p f x ys h px)
