-- ===== src/Push.antt =====
-- src/apps/push/services.py: the web-push registrations and the sends. `webpush` is a library: the
-- gateway says how each call of it ends.
pub mod Frame
pub mod Broadcast
pub mod Registration
mod Tests
pub mod Requests
use boutique_backend.Prelude.{
  ℕ, String, Bool, false, ◌&&◌, ◌||◌, Option, none, some, List, [], ◌∷◌, ◌++◌, select, reject,
  modify, find?, exists, length, ◌==◌, ℕ_eq, string_eq, if◌then◌else◌,
}
use boutique_backend.Models.{Boutique, User, Db, PushSubscription, Status}
use boutique_backend.Api.{
  ok, err, integrity_error, push_error, Runtime, Action, PushPayload, order_status, new_arrival,
  PushCall, push_failed, pure, gets, ◌>>=◌, ◌>>◌, modify_db, draw, varchar, lift,
}

-- How a call of `webpush` ends: it returns, it raises WebPushException with the status code of the
-- response if there is one, or it raises something else.
pub data Delivery : Type 0 where
  delivered : Delivery
  web_push_exception : Option ℕ → Delivery
  other_exception : Delivery

-- The answer to the n-th call, and the VAPID settings.
pub record Gateway : Type 0 where
  pub webpush : ℕ → PushCall → Delivery
  pub vapid_public_key : String
  pub vapid_private_key : String
  pub vapid_subject : String

-- The constraint `uniq_push_subscription`, and the primary key.
abbrev pub clash_subscription : PushSubscription → PushSubscription → Bool
clash_subscription a b = a.id == b.id || (a.store == b.store && a.endpoint == b.endpoint)

abbrev pub at_endpoint : Boutique → String → PushSubscription → Bool
at_endpoint store endpoint s = s.store == store.id && s.endpoint == endpoint

unfoldable pub insert_subscription : PushSubscription → Action PushSubscription
insert_subscription s w =
    if exists (clash_subscription s) w.db.subscriptions
    then (err integrity_error, w)
    else (ok s, record w { db = record w.db { subscriptions = w.db.subscriptions ++ s ∷ [] } })

abbrev pub with_keys : User → String → String → PushSubscription → PushSubscription
with_keys user p256dh auth s = record s { user = user.id; p256dh = p256dh; auth = auth }

-- The update half: the row is saved with the new keys.
unfoldable pub refresh_subscription :
    PushSubscription → User → String → String → Action PushSubscription
refresh_subscription s user p256dh auth = do
  lift (varchar 255 p256dh)
  lift (varchar 255 auth)
  modify_db λ db. record db {
    subscriptions = modify (λ r. r.id == s.id) (with_keys user p256dh auth) db.subscriptions;
  }
  pure (with_keys user p256dh auth s)

module _ (rt : Runtime) where
  -- The create half of `update_or_create`.
  unfoldable pub create_subscription :
      Boutique → User → String → String → String → Action PushSubscription
  create_subscription store user endpoint p256dh auth = do
    n ← draw
    lift (varchar 500 endpoint)
    lift (varchar 255 p256dh)
    lift (varchar 255 auth)
    insert_subscription (record {
      id = rt.uuid4 n;
      user = user.id;
      store = store.id;
      endpoint = endpoint;
      p256dh = p256dh;
      auth = auth;
      created_at = rt.now n;
    })

  -- `update_or_create`, on the row at the endpoint if there is one
  unfoldable pub upsert_subscription :
      Boutique → User → String → String → String → Option PushSubscription → Action PushSubscription
  unfolding create_subscription
  upsert_subscription store user endpoint p256dh auth none =
      create_subscription store user endpoint p256dh auth
  upsert_subscription store user endpoint p256dh auth (some s) =
      refresh_subscription s user p256dh auth

  unfoldable pub subscribe : Boutique → User → String → String → String → Action PushSubscription
  subscribe store user endpoint p256dh auth =
      gets (λ db. find? (at_endpoint store endpoint) db.subscriptions)
      >>= upsert_subscription store user endpoint p256dh auth

unfoldable pub unsubscribe : Boutique → User → String → Action (Unit {0})
unsubscribe store user endpoint = modify_db λ db. record db {
  subscriptions =
      reject (λ s. s.store == store.id && (s.user == user.id && s.endpoint == endpoint))
        db.subscriptions;
}

-- `status in (404, 410)`
abbrev pub is_gone : Option ℕ → Bool
is_gone none = false
is_gone (some status) = status == 404 || status == 410

unfoldable pub delete_subscription : PushSubscription → Db → Db
delete_subscription s db = record db { subscriptions = reject (λ r. r.id == s.id) db.subscriptions }

module _ (gw : Gateway) where
  -- The keyword arguments that `_send` hands to `webpush`.
  abbrev pub push_call : PushPayload → PushSubscription → PushCall
  push_call payload s = record {
    endpoint = s.endpoint;
    p256dh = s.p256dh;
    auth = s.auth;
    payload = payload;
    vapid_private_key = gw.vapid_private_key;
    vapid_subject = gw.vapid_subject;
  }

  -- The `except` clause of `_send`, on how the call ended.
  unfoldable pub settle : PushSubscription → Delivery → Action (Unit {0})
  unfolding delete_subscription
  settle s delivered w = (ok tt, w)
  settle s (web_push_exception status) w =
      if is_gone status
      then (ok tt, record w { db = delete_subscription s w.db })
      else (ok tt, record w { log = w.log ++ push_failed s.id ∷ [] })
  settle s other_exception w = (err push_error, w)

  unfoldable pub send : PushPayload → PushSubscription → Action (Unit {0})
  unfolding settle
  send payload s w =
      settle s (gw.webpush (length w.pushes) (push_call payload s))
        (record w { pushes = w.pushes ++ push_call payload s ∷ [] })

  unfoldable pub send_all : PushPayload → List PushSubscription → Action (Unit {0})
  send_all payload [] = pure tt
  send_all payload (s ∷ ss) = do send payload s; send_all payload ss

  -- The loop runs over the list that the query gave before the first send.
  unfoldable pub notify_order_status : Boutique → ℕ → ℕ → Status → Action (Unit {0})
  notify_order_status store customer order_id status = do
    targets ← gets λ db. select (λ s. s.store == store.id && s.user == customer) db.subscriptions
    send_all (order_status store.slug order_id status) targets

  unfoldable pub broadcast_new_arrival : Boutique → ℕ → String → String → Action (Unit {0})
  broadcast_new_arrival store product_id name image_url = do
    targets ← gets λ db. select (λ s. s.store == store.id) db.subscriptions
    send_all (new_arrival store.slug product_id name image_url) targets
