-- ===== src/System/Retries.antt =====
-- A client that sends an order again, later: src/apps/orders/services.py over the courses of the
-- database.
use boutique_backend.Prelude.{ℕ, ◌≡◌, String, Bool, false}
use boutique_backend.Models.{Boutique, User, Order, Db}
use boutique_backend.Api.{ok, World}
use boutique_backend.Orders.{place_order}
use boutique_backend.Orders.Schemas.{OrderCreate}
use boutique_backend.Orders.Frame.{insert_item-Keeps, build_order-Keeps, set_status-Keeps}
use boutique_backend.Orders.Keys.{KeysAreUnique, place_order-KeysAreUnique}
use boutique_backend.Orders.Held.{
  IsHeld, insert_order-IsHeld, update_total-IsHeld, update_status-IsHeld, existing_order_of_IsHeld,
  place_order-IsHeld, place_order_known,
}
use boutique_backend.Push.{delete_subscription}
use boutique_backend.Catalog.Writes.{without_product}
use boutique_backend.System.{Outside, Run}
use boutique_backend.System.Lasting.{IsLasting, Anything, IsLasting_of_orders}
use boutique_backend.System.Course.{Run-Lasting}
use boutique_backend.System.Soundness.{KeysAreUnique-IsLasting}

IsHeld-IsLasting :
    (o : Outside) (store : Boutique) (customer : User) (key : String) (id : ℕ)
    → IsLasting o Anything (IsHeld store customer key id)
unfolding without_product delete_subscription
IsHeld-IsLasting o store customer key id =
    IsLasting_of_orders o (λ db xs h. h) (λ db xs h. h) (λ db xs h. h) (λ db xs h. h) (λ db xs h. h)
      (build_order-Keeps o.runtime (insert_order-IsHeld store customer key id)
        (update_total-IsHeld store customer key id) (insert_item-Keeps o.runtime (λ db xs h. h)))
      (set_status-Keeps o.runtime o.gateway (update_status-IsHeld store customer key id)
        (λ s db h. h))
      (λ product_id _ db h. h)

-- Where the unique constraint of the orders held before the first call: a client that sends an order
-- again, at any later time, with any payload under the same key, after any course of requests of
-- anyone, with such courses in the gap of the first call and anything in that of the second, gets
-- the order that the first call returned, by its id, as no new one, and nothing is written.
pub place_order_retry :
    (o : Outside) (store : Boutique) (customer : User) (first second : OrderCreate)
    (others more : Db → Db) (w w' : World) (order : Order) (created : Bool)
    → second.idempotency_key ≡ first.idempotency_key
    → KeysAreUnique w.db
    → ((db : Db) → Run o db (others db))
    → (place_order o.runtime others store customer first w).0 ≡ ok (order, created)
    → Run o (place_order o.runtime others store customer first w).1.db w'.db
    → (again : Order) × ((place_order o.runtime more store customer second w'
          ≡ (ok (again, false), w'))
        × (again.id ≡ order.id))
place_order_retry o store customer first second others more w w' order created same unique between
      done run =
    let keys = KeysAreUnique-IsLasting o in
    let key = first.idempotency_key in
    let still =
      Run-Lasting keys run (λ id d. tt)
        (place_order-KeysAreUnique o.runtime store customer first others
          (λ db. Run-Lasting keys (between db) (λ id d. tt)) w unique) in
    let held =
      Run-Lasting (IsHeld-IsLasting o store customer key order.id) run (λ id d. tt)
        (place_order-IsHeld o.runtime store customer first others w (order, created) done) in
    let (again, (found, id)) =
      existing_order_of_IsHeld store customer key order.id w'.db still held in
    (again, (place_order_known o.runtime store customer second more w' again (rw same found), id))
