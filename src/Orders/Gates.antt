-- ===== src/Orders/Gates.antt =====
-- Requests of the order endpoints, and the theorems on them at concrete inputs.
use boutique_backend.Prelude.{◌≡◌, refl, some, [], ◌∷◌}
use boutique_backend.Prelude.Int.{pos}
use boutique_backend.Prelude.Members.{In}
use boutique_backend.Models.{Membership, Order, new}
use boutique_backend.Api.{ok, err, World, get_object_or_404}
use boutique_backend.Samples.{seller, opening, shop}
use boutique_backend.Tenancy.{
  Capability, forbidden, find_store, memberships_at, has_permission, admit, require_membership,
  authenticate,
}
use boutique_backend.Orders.Schemas.{RawOrder, OrderCreate, read_items, read_order}
use boutique_backend.Orders.Quote.{columns_fit}
use boutique_backend.Orders.Selectors.{store_order}
use boutique_backend.Orders.Requests.{admin_order, admin_set_status}
use boutique_backend.Orders.Isolation.{Sees, admin_order_lem, read_order_lem}

program : Unit {0}
unfolding admin_order admin_set_status store_order require_membership find_store get_object_or_404
    memberships_at admit has_permission authenticate read_order
program = tt

abbrev placed : Order
placed = record {
  id = 1000;
  store = 1;
  customer = 10;
  status = new;
  contact_name = "Aline";
  phone = "+250788112233";
  delivery_address = "Kigali, KG 11 Ave";
  note = "";
  total = 60000;
  idempotency_key = "k1";
  created_at = 50;
  updated_at = 50;
}

abbrev stocked : World
stocked = record opening { db = record shop { orders = placed ∷ [] } }

run-admin_order : (admin_order (some seller) "zita" 1000 stocked).0 ≡ ok placed
unfolding program
run-admin_order = refl

-- The seller of one store is a stranger at another.
run-require_membership :
    require_membership seller "kigali" (some Capability.work_orders) shop ≡ err forbidden
unfolding program
run-require_membership = refl

admin_order_lem_example :
    (m : Membership) × (Sees seller placed stocked.db m
      × In placed stocked.db.orders
      × (placed.id ≡ 1000))
admin_order_lem_example = admin_order_lem seller "zita" 1000 stocked placed run-admin_order

abbrev body : RawOrder
body = record {
  idempotency_key = "k1";
  contact_name = "Aline";
  phone = "+250788112233";
  delivery_address = "Kigali";
  note = "";
  items = record { product_id = 40; option_ids = []; quantity = pos 2 } ∷ [];
}

abbrev accepted_body : OrderCreate
accepted_body = record {
  idempotency_key = "k1";
  contact_name = "Aline";
  phone = "+250788112233";
  delivery_address = "Kigali";
  note = "";
  items = record { product_id = 40; option_ids = []; quantity = 2 } ∷ [];
}

run-read_order : read_order body ≡ some accepted_body
unfolding program
run-read_order = refl

read_order_lem_example :
    (columns_fit accepted_body ≡ ok tt)
    × (accepted_body.idempotency_key ≡ body.idempotency_key)
    × (read_items body.items ≡ some accepted_body.items)
read_order_lem_example = read_order_lem body accepted_body run-read_order
