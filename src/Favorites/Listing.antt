-- ===== src/Favorites/Listing.antt =====
-- Which products the customer's list shows.
use boutique_backend.Prelude.{
  ℕ, ◌≡◌, ◌↔◌, ◌⊎◌, refl, sym, ◌∙◌, inl, inr, Bool, true, ◌&&◌, List, [], ◌∷◌, ◌++◌, select, exists,
  ◌==◌, ℕ_eq, arith, Bool-cases,
}
use boutique_backend.Prelude.Members.{In, In-select}
use boutique_backend.Prelude.Sorting.{insert_by, order_by}
use boutique_backend.Models.{Boutique, User, Db, Product, Favorite}
use boutique_backend.Favorites.{is_favorite, joined, own_favorites, favorite_products}

module _ {A : Type 0} where
  In-append : (x : A) (xs ys : List A) → In x (xs ++ ys) ↔ (In x xs ⊎ In x ys)
  In-append x [] ys = (λ h. inr h, λ h. elim h [ inl e ↦ absurd e | inr k ↦ k ])
  In-append x (z ∷ zs) ys = (
    λ h. elim h [
      | inl e ↦ inl (inl e)
      | inr k ↦ elim ((In-append x zs ys).0 k) [ inl a ↦ inl (inr a) | inr b ↦ inr b ]
    ],
    λ h. elim h [
      | inl a ↦ elim a [ inl e ↦ inl e | inr k ↦ inr ((In-append x zs ys).1 (inl k)) ]
      | inr b ↦ inr ((In-append x zs ys).1 (inr b))
    ],
  )

  exists-insert_by :
      (q : A → Bool) (before : A → A → Bool) (x : A) (ys : List A)
      → exists q (insert_by before x ys) ≡ exists q (x ∷ ys)
  exists-insert_by q before x [] = refl
  exists-insert_by q before x (y ∷ ys) = ground (arith, exists-insert_by q before x ys)

  exists-order_by :
      (q : A → Bool) (before : A → A → Bool) (xs : List A)
      → exists q (order_by before xs) ≡ exists q xs
  exists-order_by q before [] = refl
  exists-order_by q before (x ∷ xs) =
      exists-insert_by q before x (order_by before xs) ∙ ground (arith, exists-order_by q before xs)

  exists-select :
      (q p : A → Bool) (xs : List A) → exists q (select p xs) ≡ exists (λ x. p x && q x) xs
  exists-select q p [] = refl
  exists-select q p (x ∷ xs) = ground (arith, exists-select q p xs)

  exists_pointwise :
      (p q : A → Bool) → ((x : A) → p x ≡ q x) → (xs : List A) → exists p xs ≡ exists q xs
  exists_pointwise p q same [] = refl
  exists_pointwise p q same (x ∷ xs) = ground (arith, same x, exists_pointwise p q same xs)

In-joined :
    (p : Product) (products : List Product) (fs : List Favorite)
    → In p (joined products fs)
      ↔ (In p products × (p.is_visible ≡ true) × (exists (λ f. p.id == f.product) fs ≡ true))
unfolding joined
In-joined p products [] = (λ h. absurd h, λ h. absurd (ground arith))
In-joined p products (f ∷ fs) =
    let fits = λ (r : Product). r.id == f.product && r.is_visible in
    (
      λ h. elim ((In-append p (select fits products) (joined products fs)).0 h) [
        | inl here ↦
            let (row, ok_here) = (In-select fits p products).0 here in
            (row, ground arith, ground arith)
        | inr there ↦
            let (row, visible, rest) = (In-joined p products fs).0 there in
            (row, visible, ground arith)
      ],
      λ h.
          (In-append p (select fits products) (joined products fs)).1
            (elim (Bool-cases (p.id == f.product)) [
              | inl e ↦ inl ((In-select fits p products).1 (h.0, ground arith))
              | inr e ↦ inr ((In-joined p products fs).1 (h.0, h.1, ground arith))
            ]),
    )

own-exists :
    (store : Boutique) (customer : User) (product_id : ℕ) (fs : List Favorite)
    → exists (λ f. product_id == f.product) (own_favorites store customer fs)
      ≡ exists (is_favorite store customer product_id) fs
unfolding own_favorites
own-exists store customer product_id fs =
    exists-order_by (λ f. product_id == f.product) _
      (select (λ f. f.customer == customer.id && f.store == store.id) fs)
    ∙ exists-select (λ f. product_id == f.product)
        (λ f. f.customer == customer.id && f.store == store.id) fs
    ∙ exists_pointwise _ _ (λ f. ground arith) fs

-- The customer's list at a store shows exactly the visible products that a favorite of the customer
-- at that store names.
pub favorite_products_iff :
    (store : Boutique) (customer : User) (db : Db) (p : Product)
    → In p (favorite_products store customer db) ↔ (
        In p db.products
        × (p.is_visible ≡ true)
        × (exists (is_favorite store customer p.id) db.favorites ≡ true))
unfolding favorite_products
favorite_products_iff store customer db p =
    let same = own-exists store customer p.id db.favorites in
    let shown = In-joined p db.products (own_favorites store customer db.favorites) in
    (
      λ h. let (row, visible, own) = shown.0 h in (row, visible, sym same ∙ own),
      λ h. shown.1 (h.0, h.1, same ∙ h.2),
    )
