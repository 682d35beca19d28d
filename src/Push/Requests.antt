-- ===== src/Push/Requests.antt =====
-- src/apps/push: the payloads (schemas.py) and the handlers of the two controllers.
use boutique_backend.Prelude.{ℕ, String, Option, some}
use boutique_backend.Models.{User}
use boutique_backend.Api.{Runtime, Action, pure, lift, reads, gets, ◌>>=◌, ◌>>◌}
use boutique_backend.Push.{Gateway, subscribe, unsubscribe, broadcast_new_arrival}
use boutique_backend.Tenancy.{Capability, find_store, require_membership, authenticate}
use boutique_backend.Orders.{visible_product, cover_url}

-- `PushKeysSchema`
pub record PushKeys : Type 0 where
  pub p256dh : String
  pub auth : String

-- `SubscribeSchema`
pub record SubscribePayload : Type 0 where
  pub endpoint : String
  pub keys : PushKeys

-- `PushController.key`: public, and not scoped to a store that exists
unfoldable pub key : Gateway → String → Action String
key gw slug = pure gw.vapid_public_key

-- `PushController.subscribe`
unfoldable pub subscribe_browser : Runtime → Option User → String → SubscribePayload → Action ℕ
subscribe_browser rt auth slug payload = do
  user ← lift (authenticate auth)
  store ← reads (find_store slug)
  subscribe rt store user payload.endpoint payload.keys.p256dh payload.keys.auth
  pure 201

-- `PushController.unsubscribe`
unfoldable pub unsubscribe_browser : Option User → String → String → Action ℕ
unsubscribe_browser auth slug endpoint = do
  user ← lift (authenticate auth)
  store ← reads (find_store slug)
  unsubscribe store user endpoint
  pure 204

-- `PushAdminController.announce`
unfoldable pub announce : Gateway → Option User → String → ℕ → Action ℕ
announce gw auth slug product_id = do
  user ← lift (authenticate auth)
  member ← reads (require_membership user slug (some Capability.manage_catalog))
  product ← reads (λ db. visible_product db.catalog member.1 product_id)
  url ← gets (λ db. cover_url db.catalog product)
  broadcast_new_arrival gw member.1 product.id product.name url
  pure 202
