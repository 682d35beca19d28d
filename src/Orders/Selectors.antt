-- ===== src/Orders/Selectors.antt =====
-- src/apps/orders/selectors.py: the customer's history and the seller's inbox.
use boutique_backend.Prelude.{
  ℕ, Bool, true, false, ◌&&◌, ◌||◌, Option, none, some, List, map, select, length, ltb, ◌==◌, ℕ_eq,
}
use boutique_backend.Prelude.Sorting.{order_by}
use boutique_backend.Models.{
  Boutique, User, Db, Order, Status, new, confirmed, fulfilled, cancelled,
}
use boutique_backend.Api.{Result, get_object_or_404}

-- The model's ordering, `-created_at`.
abbrev pub newer : Order → Order → Bool
newer later o = ltb o.created_at later.created_at

-- `annotate(item_count=Count("items"))`
abbrev pub with_count : Db → Order → Order × ℕ
with_count db o = (o, length (select (λ i. i.order == o.id) db.items))

unfoldable pub customer_orders : Boutique → User → Db → List (Order × ℕ)
customer_orders store customer db =
    map (with_count db)
      (order_by newer (select (λ o. o.store == store.id && o.customer == customer.id) db.orders))

unfoldable pub customer_order : Boutique → User → ℕ → Db → Result Order
customer_order store customer order_id db =
    get_object_or_404 (λ o. (o.store == store.id && o.customer == customer.id) && o.id == order_id)
      db.orders

abbrev pub same_status : Status → Status → Bool
same_status new new = true
same_status confirmed confirmed = true
same_status fulfilled fulfilled = true
same_status cancelled cancelled = true
same_status _ _ = false

abbrev pub has_status : Option Status → Order → Bool
has_status none o = true
has_status (some status) o = same_status o.status status

-- The `since` filter. A `since_id` alone is ignored.
abbrev pub after_cursor : Option ℕ → Option ℕ → Order → Bool
after_cursor none since_id o = true
after_cursor (some since) none o = ltb since o.created_at
after_cursor (some since) (some since_id) o =
    ltb since o.created_at || (o.created_at == since && ltb since_id o.id)

unfoldable pub inbox : Boutique → Option ℕ → Option ℕ → Option Status → Db → List (Order × ℕ)
inbox store since since_id status db = map (with_count db) (
    order_by newer (
      select (after_cursor since since_id)
        (select (has_status status) (select (λ o. o.store == store.id) db.orders))))

unfoldable pub store_order : Boutique → ℕ → Db → Result Order
store_order store order_id db =
    get_object_or_404 (λ o. o.store == store.id && o.id == order_id) db.orders
