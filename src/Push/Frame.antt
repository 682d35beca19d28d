-- ===== src/Push/Frame.antt =====
-- Sending touches nothing of the database but the registrations.
use boutique_backend.Prelude.{
  String, length, ◌++◌, ℕ, List, [], ◌∷◌, select, ◌==◌, ◌&&◌, ℕ_eq, arith,
}
use boutique_backend.Models.{Boutique, Db, PushSubscription, Status}
use boutique_backend.Api.{PushPayload, order_status, new_arrival}
use boutique_backend.Api.Keeps.{Keeps, Keeps-pure, Keeps-bind}
use boutique_backend.Push.{
  push_call, Gateway, Delivery, delivered, web_push_exception, other_exception, settle, send,
  send_all, delete_subscription, notify_order_status, broadcast_new_arrival,
}

module _ (gw : Gateway) {P : Db → Type 0}
    (prune : (s : PushSubscription) (db : Db) → P db → P (delete_subscription s db)) where
  settle-Keeps : (s : PushSubscription) (d : Delivery) → Keeps P (settle gw s d)
  unfolding settle
  settle-Keeps s delivered = record { at = λ w h. h }
  settle-Keeps s (web_push_exception status) = record { at = λ w h. ground (arith, prune s w.db h) }
  settle-Keeps s other_exception = record { at = λ w h. h }

  send-Keeps : (payload : PushPayload) (s : PushSubscription) → Keeps P (send gw payload s)
  unfolding send
  send-Keeps payload s = record {
    at = λ w h.
        (settle-Keeps s (gw.webpush (length w.pushes) (push_call gw payload s))).at
          (record w { pushes = w.pushes ++ push_call gw payload s ∷ [] }) h;
  }

  pub send_all-Keeps :
      (payload : PushPayload) (ss : List PushSubscription) → Keeps P (send_all gw payload ss)
  unfolding send_all
  send_all-Keeps payload [] = Keeps-pure tt
  send_all-Keeps payload (s ∷ ss) =
      Keeps-bind (send gw payload s) (λ _. send_all gw payload ss) (send-Keeps payload s)
        (λ _. send_all-Keeps payload ss)

  -- A notification keeps whatever the loss of registrations cannot break.
  pub notify_order_status-Keeps :
      (store : Boutique) (customer order_id : ℕ) (status : Status)
      → Keeps P (notify_order_status gw store customer order_id status)
  unfolding notify_order_status
  notify_order_status-Keeps store customer order_id status = record {
    at = λ w h.
        (send_all-Keeps (order_status store.slug order_id status)
            (select (λ s. s.store == store.id && s.user == customer) w.db.subscriptions)).at
          w h;
  }

  pub broadcast_new_arrival-Keeps :
      (store : Boutique) (product_id : ℕ) (name image_url : String)
      → Keeps P (broadcast_new_arrival gw store product_id name image_url)
  unfolding broadcast_new_arrival
  broadcast_new_arrival-Keeps store product_id name image_url = record {
    at = λ w h.
        (send_all-Keeps (new_arrival store.slug product_id name image_url)
            (select (λ s. s.store == store.id) w.db.subscriptions)).at
          w h;
  }
