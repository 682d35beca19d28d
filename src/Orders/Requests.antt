-- ===== src/Orders/Requests.antt =====
-- src/apps/orders/controllers: the handlers of the customer's and the seller's order endpoints. Ninja
-- authenticates first, then validates the body, then calls the handler.
use boutique_backend.Prelude.{ℕ, String, Option, none, some, List, Bool, if◌then◌else◌}
use boutique_backend.Models.{User, Db, Order, Status}
use boutique_backend.Api.{http, Result, ok, err, Runtime, Action, pure, lift, reads, gets, ◌>>=◌}
use boutique_backend.Push.{Gateway}
use boutique_backend.Tenancy.{Capability, find_store, require_membership, authenticate}
use boutique_backend.Orders.{place_order, set_status}
use boutique_backend.Orders.Schemas.{RawOrder, read_order}
use boutique_backend.Orders.Selectors.{customer_orders, customer_order, inbox, store_order}

-- Ninja's answer to a body that does not validate.
abbrev pub validated : {A : Type 0} → Option A → Result A
validated none = err (http 422 "Unprocessable Entity")
validated (some a) = ok a

-- `201 if created else 200`
abbrev pub created_status : Bool → ℕ
created_status created = if created then 201 else 200

-- `OrdersController.my_orders`
unfoldable pub my_orders : Option User → String → Action (List (Order × ℕ))
my_orders auth slug = do
  customer ← lift (authenticate auth)
  store ← reads (find_store slug)
  gets (customer_orders store customer)

-- `OrdersController.detail`
unfoldable pub my_order : Option User → String → ℕ → Action Order
my_order auth slug order_id = do
  customer ← lift (authenticate auth)
  store ← reads (find_store slug)
  reads (customer_order store customer order_id)

-- `OrdersAdminController.inbox`
unfoldable pub admin_inbox :
    Option User → String → Option ℕ → Option ℕ → Option Status → Action (List (Order × ℕ))
admin_inbox auth slug since since_id status = do
  user ← lift (authenticate auth)
  member ← reads (require_membership user slug (some Capability.work_orders))
  gets (inbox member.1 since since_id status)

-- `OrdersAdminController.detail`
unfoldable pub admin_order : Option User → String → ℕ → Action Order
admin_order auth slug order_id = do
  user ← lift (authenticate auth)
  member ← reads (require_membership user slug (some Capability.work_orders))
  reads (store_order member.1 order_id)

module _ (rt : Runtime) where
  -- `OrdersController.place`
  unfoldable pub place : (Db → Db) → Option User → String → RawOrder → Action (ℕ × Order)
  place others auth slug body = do
    customer ← lift (authenticate auth)
    payload ← lift (validated (read_order body))
    store ← reads (find_store slug)
    placed ← place_order rt others store customer payload
    pure (created_status placed.1, placed.0)

  -- `OrdersAdminController.set_status`
  unfoldable pub admin_set_status : Gateway → Option User → String → ℕ → Status → Action Order
  admin_set_status gw auth slug order_id status = do
    user ← lift (authenticate auth)
    member ← reads (require_membership user slug (some Capability.work_orders))
    set_status rt gw member.1 order_id status
