-- ===== src/Orders.antt =====
-- src/apps/orders/services.py: placing an order and moving it along.
mod Options
pub mod Schemas
pub mod Choices
pub mod Selectors
pub mod Inbox
pub mod Quote
pub mod Lines
pub mod Building
pub mod Placement
pub mod Keys
pub mod Replay
pub mod Totals
pub mod Ledger
pub mod Recovery
pub mod Held
pub mod Seal
pub mod Frame
pub mod Items
pub mod Progress
pub mod Requests
pub mod Views
pub mod Isolation
mod Tests
mod Gates
use boutique_backend.Prelude.{
  ℕ, ◌+◌, ◌*◌, String, Bool, true, false, ◌&&◌, ◌||◌, not, Option, none, some, List, [], ◌∷◌, ◌++◌,
  map, select, modify, exists, elem, dedup, head?, length, is_empty, find?, ltb, ◌==◌, ℕ_eq,
  string_eq, if◌then◌else◌,
}
use boutique_backend.Prelude.Dict.{Dict, insert}
use boutique_backend.Prelude.Int.{pos}
use boutique_backend.Prelude.Sorting.{order_by}
use boutique_backend.Models.{
  Boutique, User, Catalog, Product, ProductImage, VariantGroup, VariantOption, Db, Order, OrderItem,
  Status, new,
}
use boutique_backend.Api.{
  Error, http, integrity_error, Result, ok, err, World, Runtime, Action, pure, raise, lift, reads,
  gets, atomic, ◌>>=◌, ◌>>◌, modify_db, draw, get_object_or_404, get_object, positive_integer,
  varchar,
}
use boutique_backend.Push.{Gateway, notify_order_status}
unfoldable pub use Options.*
use Schemas.{OrderItemIn, OrderCreate}

-- The constraint `uniq_order_idempotency`, and the primary keys.
abbrev pub has_key : Boutique → User → String → Order → Bool
has_key store customer key o =
    o.store == store.id && (o.customer == customer.id && o.idempotency_key == key)

abbrev pub clash_order : Order → Order → Bool
clash_order a b =
    a.id == b.id
    || (a.store == b.store && (a.customer == b.customer && a.idempotency_key == b.idempotency_key))

unfoldable pub insert_order : Order → Action Order
insert_order o w =
    if exists (clash_order o) w.db.orders
    then (err integrity_error, w)
    else (ok o, record w { db = record w.db { orders = w.db.orders ++ o ∷ [] } })

unfoldable pub insert_item : OrderItem → Action (Unit {0})
insert_item i w =
    if exists (λ j. j.id == i.id) w.db.items
    then (err integrity_error, w)
    else (ok tt, record w { db = record w.db { items = w.db.items ++ i ∷ [] } })

-- `_existing_order`: the newest, by the model's ordering
unfoldable pub existing_order : Boutique → User → String → Db → Option Order
existing_order store customer key db = head? (
    order_by (λ later o. ltb o.created_at later.created_at)
      (select (has_key store customer key) db.orders))

-- `except IntegrityError`
abbrev pub recover : {A : Type 0} → Error → Action A → Action A
recover integrity_error handler = handler
recover e handler = raise e

abbrev pub on_integrity_error : {A : Type 0} → Action A → Action A → Action A
on_integrity_error m handler w =
    let (r, w') = m w in elim r [ ok a ↦ (ok a, w') | err e ↦ recover e handler w' ]

abbrev pub write_total : Order → ℕ → Action Order
write_total order total = do
  modify_db λ db. record db {
    orders = modify (λ o. o.id == order.id) (λ o. record o { total = total }) db.orders;
  }
  pure (record order { total = total })

-- `order.save(update_fields=["total"])`
unfoldable pub save_total : Order → ℕ → Action Order
save_total order total = lift (positive_integer (pos total)) >>= write_total order

module _ (rt : Runtime) where
  -- The arguments of `OrderItem.objects.create`. The snapshot columns are as wide as those that they
  -- are copied from.
  abbrev pub order_item : ℕ → Order → Boutique → Product → String → ℕ → Dict String → OrderItem
  order_item n order store product url quantity options = record {
    id = rt.uuid4 n;
    store = store.id;
    order = order.id;
    product = some product.id;
    quantity = quantity;
    unit_price = product.price;
    name_snapshot = product.name;
    image_url_snapshot = url;
    options = options;
  }

  -- `_add_line`
  unfoldable pub add_line : Order → Boutique → OrderItemIn → Action ℕ
  unfolding insert_item
  add_line order store item = do
    product ← reads (λ db. visible_product db.catalog store item.product_id)
    url ← gets (λ db. cover_url db.catalog product)
    options ← reads (λ db. resolve_options db.catalog product item.option_ids)
    n ← draw
    quantity ← lift (positive_integer (pos item.quantity))
    insert_item (order_item n order store product url quantity options)
    pure (product.price * item.quantity)

  -- `sum(_add_line(order, store, item) for item in payload.items)`
  unfoldable pub add_lines : Order → Boutique → ℕ → List OrderItemIn → Action ℕ
  add_lines order store total [] = pure total
  add_lines order store total (item ∷ items) = do
    line ← add_line order store item
    add_lines order store (total + line) items

  -- `Order.objects.create`
  unfoldable pub create_order : Boutique → User → OrderCreate → Action Order
  unfolding insert_order
  create_order store customer payload = do
    n ← draw
    lift (varchar 255 payload.idempotency_key)
    lift (varchar 255 payload.contact_name)
    lift (varchar 20 payload.phone)
    insert_order (record {
      id = rt.uuid4 n;
      store = store.id;
      customer = customer.id;
      status = new;
      contact_name = payload.contact_name;
      phone = payload.phone;
      delivery_address = payload.delivery_address;
      note = payload.note;
      total = 0;
      idempotency_key = payload.idempotency_key;
      created_at = rt.now n;
      updated_at = rt.now n;
    })

  -- The body of the transaction.
  unfoldable pub build_order : Boutique → User → OrderCreate → Action Order
  build_order store customer payload = do
    order ← create_order store customer payload
    total ← add_lines order store 0 payload.items
    save_total order total

  -- What follows the fast-path check.
  unfoldable pub submit_order : Boutique → User → OrderCreate → Action (Order × Bool)
  submit_order store customer payload =
      if is_empty payload.items
      then raise (http 400 "An order needs at least one item.")
      else on_integrity_error
          (do order ← atomic (build_order store customer payload); pure (order, true))
          (do
            order ←
                reads λ db. get_object (has_key store customer payload.idempotency_key) db.orders
            pure (order, false))

  -- `others` is what other requests commit between the fast-path check and the INSERT.
  unfoldable pub place_order : (Db → Db) → Boutique → User → OrderCreate → Action (Order × Bool)
  place_order others store customer payload = do
    existing ← gets (existing_order store customer payload.idempotency_key)
    elim existing [
      | some order ↦ pure (order, false)
      | none ↦ modify_db others >> submit_order store customer payload
    ]

-- `get_object_or_404(Order, store=store, id=order_id)`
unfoldable pub find_order : Boutique → ℕ → Db → Result Order
find_order store order_id db =
    get_object_or_404 (λ o. o.store == store.id && o.id == order_id) db.orders

module _ (rt : Runtime) (gw : Gateway) where
  -- `set_status`, from the assignment of the status on
  abbrev pub save_status : Boutique → Status → Order → Action Order
  save_status store status order = do
    n ← draw
    let saved = record order { status = status; updated_at = rt.now n }
    modify_db λ db. record db {
      orders =
          modify (λ o. o.id == order.id) (λ o. record o { status = status; updated_at = rt.now n })
            db.orders;
    }
    notify_order_status gw store order.customer order.id status
    pure saved

  unfoldable pub set_status : Boutique → ℕ → Status → Action Order
  set_status store order_id status = reads (find_order store order_id) >>= save_status store status
