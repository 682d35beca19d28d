-- ===== src/System/Permanence.antt =====
-- What becomes of a placed order: src/apps/orders/services.py over the courses of the database.
use boutique_backend.Prelude.{ℕ, List, ◌≡◌, true, exists}
use boutique_backend.Models.{OrderItem, Db}
use boutique_backend.Orders.Frame.{set_status-Keeps}
use boutique_backend.Orders.Seal.{
  is_row, AreKept, lines_of_order, IsSealed, AreKept-refl, unlink-AreKept, build_order-IsSealed,
  update_status-IsSealed,
}
use boutique_backend.Push.{delete_subscription}
use boutique_backend.Catalog.Writes.{without_product}
use boutique_backend.System.{Outside, Run, Deletes}
use boutique_backend.System.Lasting.{IsLasting, IsLasting_of_orders}
use boutique_backend.System.Course.{Run-Lasting}

IsSealed-IsLasting :
    (o : Outside) (D : ℕ → Type 0) (id total : ℕ) (lines : List OrderItem)
    → IsLasting o D (IsSealed D id total lines)
unfolding without_product delete_subscription
IsSealed-IsLasting o D id total lines =
    IsLasting_of_orders o (λ db xs h. h) (λ db xs h. h) (λ db xs h. h) (λ db xs h. h) (λ db xs h. h)
      (build_order-IsSealed D id total lines o.runtime)
      (set_status-Keeps o.runtime o.gateway (update_status-IsSealed D id total lines) (λ s db h. h))
      (λ product_id d db h. (h.0, unlink-AreKept D id product_id d db.items lines h.1))

-- An order that is in the database stays, with the same total and the same lines in the same order,
-- however prices, names and photos change, products go, other orders come and statuses move. No course
-- of requests alters a line but for its link to a product, which can only be taken away, and only if
-- the course has a request that asks for the deletion of that very product.
pub Run-IsSealed :
    (o : Outside) (id total : ℕ) (a b : Db) (run : Run o a b)
    → exists (is_row id total) a.orders ≡ true
    → (exists (is_row id total) b.orders ≡ true)
      × AreKept (Deletes run) (lines_of_order id a) (lines_of_order id b)
Run-IsSealed o id total a b run h =
    Run-Lasting (IsSealed-IsLasting o (Deletes run) id total (lines_of_order id a)) run (λ k d. d)
      (h, AreKept-refl (Deletes run) (lines_of_order id a))
