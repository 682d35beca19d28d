-- ===== src/Orders/Progress.antt =====
-- Moving an order along: what `set_status` stores, whatever becomes of the notification.
use boutique_backend.Prelude.{
  ℕ, ◌+◌, ◌≡◌, refl, inl, inr, ◌⊎◌, List, [], ◌∷◌, select, modify, length, ◌++◌, ◌==◌, ◌&&◌, ℕ_eq,
  arith,
}
use boutique_backend.Models.{Boutique, Order, Status, PushSubscription}
use boutique_backend.Api.{
  push_error, Result, ok, err, World, Runtime, PushPayload, order_status, Action, ◌>>◌, pure, reads,
}
use boutique_backend.Api.Bind.{bind_of_ok}
use boutique_backend.Push.{
  Gateway, Delivery, delivered, web_push_exception, other_exception, settle, push_call, send,
  send_all, notify_order_status, delete_subscription,
}
use boutique_backend.Push.Frame.{notify_order_status-Keeps}
use boutique_backend.Orders.{find_order, save_status, set_status}

-- A notification fails only with the exception of the push library.
module _ (gw : Gateway) where
  settle_end :
      (s : PushSubscription) (d : Delivery) (w : World)
      → ((settle gw s d w).0 ≡ ok tt) ⊎ ((settle gw s d w).0 ≡ err push_error)
  unfolding settle
  settle_end s delivered w = inl refl
  settle_end s (web_push_exception status) w = inl (ground arith)
  settle_end s other_exception w = inr refl

  send_end :
      (payload : PushPayload) (s : PushSubscription) (w : World)
      → ((send gw payload s w).0 ≡ ok tt) ⊎ ((send gw payload s w).0 ≡ err push_error)
  unfolding send
  send_end payload s w =
      settle_end s (gw.webpush (length w.pushes) (push_call gw payload s))
        (record w { pushes = w.pushes ++ push_call gw payload s ∷ [] })

  then_end :
      (payload : PushPayload) (ss : List PushSubscription) (p : Result (Unit {0}) × World)
      → ((w : World)
          → ((send_all gw payload ss w).0 ≡ ok tt)
            ⊎ ((send_all gw payload ss w).0 ≡ err push_error))
      → (p.0 ≡ ok tt) ⊎ (p.0 ≡ err push_error)
      → (w : World)
      → ((((λ (v : World). p) >> send_all gw payload ss) w).0 ≡ ok tt)
        ⊎ ((((λ (v : World). p) >> send_all gw payload ss) w).0 ≡ err push_error)
  then_end payload ss (ok a, w') rest h w = rest w'
  then_end payload ss (err e, w') rest (inl h) w = absurd (ground arith)
  then_end payload ss (err e, w') rest (inr h) w = inr h

  send_all_end :
      (payload : PushPayload) (ss : List PushSubscription) (w : World)
      → ((send_all gw payload ss w).0 ≡ ok tt) ⊎ ((send_all gw payload ss w).0 ≡ err push_error)
  unfolding send_all
  send_all_end payload [] w = inl refl
  send_all_end payload (s ∷ ss) w =
      then_end payload ss (send gw payload s w) (send_all_end payload ss) (send_end payload s w) w

  notify_end :
      (store : Boutique) (customer order_id : ℕ) (status : Status) (w : World)
      → ((notify_order_status gw store customer order_id status w).0 ≡ ok tt)
        ⊎ ((notify_order_status gw store customer order_id status w).0 ≡ err push_error)
  unfolding notify_order_status
  notify_end store customer order_id status w =
      send_all_end (order_status store.slug order_id status)
        (select (λ s. s.store == store.id && s.user == customer) w.db.subscriptions) w

-- The row that `order.save` writes.
abbrev pub moved : Status → ℕ → Order → Order
moved status now o = record o { status = status; updated_at = now }

notified :
    (o : Order) (m : Action (Unit {0})) (w : World)
    → ((m w).0 ≡ ok tt) ⊎ ((m w).0 ≡ err push_error)
    → (((m >> pure o) w).0 ≡ ok o) ⊎ (((m >> pure o) w).0 ≡ err push_error)
notified o m w (inl h) = inl (ground arith)
notified o m w (inr h) = inr (ground arith)

kept_orders : (o : Order) (m : Action (Unit {0})) (w : World) → ((m >> pure o) w).1.db ≡ (m w).1.db
kept_orders o m w = ground arith

-- For an order that the store has, `set_status` stores the new status and touches no row with
-- another id, whatever the push service answers; it returns the order as stored, or else raises the exception of
-- the push library, with the status stored all the same.
pub set_status_lem :
    (rt : Runtime) (gw : Gateway) (store : Boutique) (order_id : ℕ) (status : Status) (w : World)
    (order : Order)
    → find_order store order_id w.db ≡ ok order
    → ((set_status rt gw store order_id status w).1.db.orders
        ≡ modify (λ o. o.id == order.id) (moved status (rt.now w.draws)) w.db.orders)
      × (((set_status rt gw store order_id status w).0 ≡ ok (moved status (rt.now w.draws) order))
          ⊎ ((set_status rt gw store order_id status w).0 ≡ err push_error))
unfolding set_status delete_subscription
set_status_lem rt gw store order_id status w order found =
    let saved = moved status (rt.now w.draws) order in
    let w' = record w {
      db = record w.db {
        orders = modify (λ o. o.id == order.id) (moved status (rt.now w.draws)) w.db.orders;
      };
      draws = w.draws + 1;
    } in
    let tell = notify_order_status gw store order.customer order.id status in
    let run =
      bind_of_ok (reads (find_order store order_id)) (save_status rt gw store status) w order w
        (rw found refl) in
    rw run (
      rw (kept_orders saved tell w') (
          (notify_order_status-Keeps gw {P = λ db. db.orders ≡ w'.db.orders} (λ s db h. h) store
              order.customer order.id status).at
            w' refl),
      notified saved tell w' (notify_end gw store order.customer order.id status w'),
    )
