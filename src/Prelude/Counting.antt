-- ===== src/Prelude/Counting.antt =====
-- How many: lists without repetition, by what is in them.
use Prim.Native.Nat.{◌≤◌, ◌<◌}
use mathlib.Core.Path.{◌≡◌, refl, sym, ap, subst, ◌∙◌}
use mathlib.Core.Logic.{◌↔◌, inl, inr}
use mathlib.Core.Bool.{Bool, true, false, false≢true}
use mathlib.Core.List.{List, [], ◌∷◌, map}
use native.Mathlib.Omega.{arith}
use package.boutique_backend.Prelude.Tests.{Eq, ◌==◌, beq_refl, Bool-cases}
use package.boutique_backend.Prelude.Tables.{length, reject, exists, elem, dedup}
use package.boutique_backend.Prelude.Constraints.{IsDistinct}
use package.boutique_backend.Prelude.Members.{In, exists_of_In, none_of_exists}

module _ {A : Type 0} where
  length-reject-le : (p : A → Bool) (xs : List A) → length (reject p xs) ≤ length xs
  length-reject-le p [] = omega arith
  length-reject-le p (x ∷ xs) = ground (arith, length-reject-le p xs)

  pub length-reject-lt :
      (p : A → Bool) (xs : List A) → exists p xs ≡ true → length (reject p xs) < length xs
  length-reject-lt p [] h = cc
  length-reject-lt p (x ∷ xs) h = ground (arith, length-reject-le p xs, length-reject-lt p xs)

  pub exists_iff :
      (p : A → Bool) (xs : List A) → (exists p xs ≡ true) ↔ ((x : A) × (In x xs × (p x ≡ true)))
  exists_iff p xs = (found p xs, λ (x, (i, e)). exists_of_In p x xs i e)
    where
      found : (p : A → Bool) (xs : List A) → exists p xs ≡ true → (x : A) × (In x xs × (p x ≡ true))
      found p [] h = cc
      found p (x ∷ xs) h = elim (Bool-cases (p x)) [
        | inl e ↦ (x, (inl refl, e))
        | inr e ↦ let (y, (i, f)) = found p xs (rw e at h) in (y, (inr i, f))
      ]

  row_of_reject : (p : A → Bool) (x : A) (xs : List A) → In x xs → p x ≡ false → In x (reject p xs)
  row_of_reject p x [] i h = absurd i
  row_of_reject p x (y ∷ ys) (inl e) h = rw ((rw e at h)) (inl e)
  row_of_reject p x (y ∷ ys) (inr i) h = elim (Bool-cases (p y)) [
    | inl e ↦ rw e (row_of_reject p x ys i h)
    | inr e ↦ rw e (inr (row_of_reject p x ys i h))
  ]

module _ {A B : Type 0} (f : A → B) where
  pub In-map : (y : B) (xs : List A) → In y (map f xs) ↔ ((x : A) × (In x xs × (f x ≡ y)))
  In-map y [] = (λ h. absurd h, λ h. h.1.0)
  In-map y (x ∷ xs) = (
    λ h. elim h [
      | inl e ↦ (x, (inl refl, sym e))
      | inr i ↦ let (z, (j, e)) = (In-map y xs).0 i in (z, (inr j, e))
    ],
    λ (z, (i, e)). elim i [
      | inl same ↦ inl (sym e ∙ ap f same)
      | inr j ↦ inr ((In-map y xs).1 (z, (j, e)))
    ],
  )

module _ {A : Type 0} ⦃e : Eq A⦄ where
  pub elem_iff : (x : A) (xs : List A) → (elem x xs ≡ true) ↔ In x xs
  elem_iff x [] = (λ h. cc, λ h. absurd h)
  elem_iff x (y ∷ ys) = (
    λ h. elim (Bool-cases (y == x)) [
      | inl same ↦ inl (sym ((e.beq_iff y x).0 same))
      | inr other ↦ inr ((elem_iff x ys).0 (rw other at h))
    ],
    λ i. elim i [
      | inl same ↦ rw (sym same, beq_refl x) refl
      | inr j ↦ elim (Bool-cases (y == x)) [
        | inl same ↦ rw same refl
        | inr other ↦ rw (other, (elem_iff x ys).1 j) refl
      ]
    ],
  )

  pub In-dedup : (x : A) (xs : List A) → In x (dedup xs) ↔ In x xs
  In-dedup x [] = (λ h. h, λ h. h)
  In-dedup x (y ∷ ys) = elim (Bool-cases (elem y (dedup ys))) [
    | inl hit ↦ (
      λ h. inr ((In-dedup x ys).0 (rw hit at h)),
      λ i. rw hit (elim i [
        | inl same ↦ rw same ((elem_iff y (dedup ys)).0 hit)
        | inr j ↦ (In-dedup x ys).1 j
      ]),
    )
    | inr new ↦ (
      λ h. elim (rw new at h) [ inl same ↦ inl same | inr j ↦ inr ((In-dedup x ys).0 j) ],
      λ i. rw new (elim i [ inl same ↦ inl same | inr j ↦ inr ((In-dedup x ys).1 j) ]),
    )
  ]

  pub none_of_elem : (x : A) (xs : List A) → elem x xs ≡ false → exists (λ y. x == y) xs ≡ false
  none_of_elem x [] h = refl
  none_of_elem x (y ∷ ys) h = elim (Bool-cases (x == y)) [
    | inl same ↦
        absurd (false≢true (sym h ∙ (elem_iff x (y ∷ ys)).1 (inl ((e.beq_iff x y).0 same))))
    | inr other ↦ elim (Bool-cases (elem x ys)) [
      | inl hit ↦
          absurd (false≢true (sym h ∙ (elem_iff x (y ∷ ys)).1 (inr ((elem_iff x ys).0 hit))))
      | inr free ↦ rw (other, none_of_elem x ys free) refl
    ]
  ]

  pub dedup-IsDistinct : (xs : List A) → IsDistinct (λ x y. x == y) (dedup xs)
  dedup-IsDistinct [] = tt
  dedup-IsDistinct (x ∷ xs) = elim (Bool-cases (elem x (dedup xs))) [
    | inl hit ↦ rw hit (dedup-IsDistinct xs)
    | inr new ↦ rw new (none_of_elem x (dedup xs) new, dedup-IsDistinct xs)
  ]

  -- A list without repetition is no longer than a list that has all of it.
  pub length-le_of_sub :
      (xs ys : List A)
      → IsDistinct (λ x y. x == y) xs
      → ((x : A) → In x xs → In x ys)
      → length xs ≤ length ys
  length-le_of_sub [] ys d sub = omega arith
  length-le_of_sub (x ∷ xs) ys d sub =
      let others = reject (λ y. y == x) ys in
      let shorter =
        length-reject-lt (λ y. y == x) ys
          (exists_of_In (λ y. y == x) x ys (sub x (inl refl)) (beq_refl x)) in
      let rest =
        length-le_of_sub xs others d.1
          λ z i. row_of_reject (λ y. y == x) z ys (sub z (inr i)) (apart z i) in
      omega arith
    where
      apart : (z : A) → In z xs → (z == x) ≡ false
      apart z i = elim (Bool-cases (z == x)) [
        | inl same ↦ absurd (
            false≢true (
              sym (none_of_exists (λ y. x == y) z xs d.0 i)
              ∙ (e.beq_iff x z).1 (sym ((e.beq_iff z x).0 same))))
        | inr other ↦ other
      ]

  pub length_of_same :
      (xs ys : List A)
      → IsDistinct (λ x y. x == y) xs
      → IsDistinct (λ x y. x == y) ys
      → ((x : A) → In x xs ↔ In x ys)
      → length xs ≡ length ys
  length_of_same xs ys d f same = omega (
    arith,
    length-le_of_sub xs ys d (λ x. (same x).0),
    length-le_of_sub ys xs f (λ x. (same x).1),
  )

  -- A list without repetition has all of a set that it is part of exactly if it is as long.
  pub whole_iff :
      (found ids : List A)
      → IsDistinct (λ x y. x == y) found
      → ((x : A) → In x found → In x ids)
      → (length found ≡ length (dedup ids)) ↔ ((x : A) → In x ids → In x found)
  whole_iff found ids d sub = (
    λ h x i. elim (Bool-cases (elem x found)) [
      | inl hit ↦ (elem_iff x found).0 hit
      | inr missing ↦ absurd (
          omega (
            arith,
            h,
            length-le_of_sub (x ∷ found) (dedup ids) (none_of_elem x found missing, d)
                λ y j.
                  (In-dedup y ids).1
                    (elim j [ inl same ↦ subst (λ z. In z ids) (sym same) i | inr k ↦ sub y k ]),
          ))
    ],
    λ h.
        length_of_same found (dedup ids) d (dedup-IsDistinct ids)
          λ x. (λ j. (In-dedup x ids).1 (sub x j), λ j. h x ((In-dedup x ids).0 j)),
  )
