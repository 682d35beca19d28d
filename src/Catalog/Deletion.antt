-- ===== src/Catalog/Deletion.antt =====
-- Deleting a product: what the orders keep.
use boutique_backend.Prelude.{
  ℕ, ◌≡◌, ◌∙◌, refl, sym, inl, inr, true, none, List, [], ◌∷◌, exists, modify, All, ◌==◌, ℕ_eq,
  Bool-cases,
}
use boutique_backend.Models.{Boutique, Db, Order, OrderItem}
use boutique_backend.Api.{World}
use boutique_backend.Orders.Totals.{IsPriced, charged}
use boutique_backend.Orders.Schemas.{line_total}
use boutique_backend.Catalog.Frame.{delete_product-Keeps}
use boutique_backend.Catalog.Writes.{names_product, without_product, delete_product}

abbrev unlink : OrderItem → OrderItem
unlink i = record i { product = none }

same_charge :
    (o : Order) (id : ℕ) (items : List OrderItem)
    → charged (modify (names_product id) unlink items) o ≡ charged items o
unfolding line_total
same_charge o id [] = refl
same_charge o id (i ∷ is) = elim (Bool-cases (names_product id i)) [
  | inl e ↦ elim (Bool-cases (i.order == o.id)) [
    | inl same ↦ rw (e, same, same_charge o id is) refl
    | inr other ↦ rw (e, other, same_charge o id is) refl
  ]
  | inr e ↦ elim (Bool-cases (i.order == o.id)) [
    | inl same ↦ rw (e, same, same_charge o id is) refl
    | inr other ↦ rw (e, other, same_charge o id is) refl
  ]
]

same_totals :
    (id : ℕ) (items : List OrderItem) (orders : List Order)
    → All (λ (o : Order). o.total ≡ charged items o) orders
    → All (λ (o : Order). o.total ≡ charged (modify (names_product id) unlink items) o) orders
same_totals id items [] h = tt
same_totals id items (o ∷ os) h = (h.0 ∙ sym (same_charge o id items), same_totals id items os h.1)

same_owner :
    (id : ℕ) (orders : List Order) (items : List OrderItem)
    → All (λ (i : OrderItem). exists (λ (o : Order). o.id == i.order) orders ≡ true) items
    → All
        (λ (i : OrderItem). exists (λ (o : Order). o.id == i.order) orders ≡ true)
        (modify (names_product id) unlink items)
same_owner id orders [] h = tt
same_owner id orders (i ∷ is) h = (
  elim (Bool-cases (names_product id i)) [ inl e ↦ rw e h.0 | inr e ↦ rw e h.0 ],
  same_owner id orders is h.1,
)

pub without-IsPriced : (id : ℕ) (db : Db) → IsPriced db → IsPriced (without_product id db)
unfolding without_product
without-IsPriced id db h = record {
  totals = same_totals id db.items db.orders h.totals;
  owned = same_owner id db.orders db.items h.owned;
}

-- The orders outlive the catalog: deleting a product leaves every stored order with the sum of its
-- stored lines.
pub delete_product-IsPriced :
    (store : Boutique) (product_id : ℕ) (w : World)
    → IsPriced w.db
    → IsPriced (delete_product store product_id w).1.db
delete_product-IsPriced store product_id =
    (delete_product-Keeps store product_id (without-IsPriced product_id)).at
