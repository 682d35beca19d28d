-- ===== src/Orders/Frame.antt =====
-- What keeps a property of the database through the order services: what it must stand, so that
-- `place_order` and `set_status` cannot break it, whatever other requests commit in the middle.
use boutique_backend.Prelude.{
  ℕ, ◌+◌, ◌*◌, Option, none, some, List, [], ◌∷◌, ◌++◌, Bool-cases, inl, inr, exists, modify, ◌==◌,
  ℕ_eq, string_eq, is_empty, true, false,
}
use boutique_backend.Prelude.Int.{pos}
use boutique_backend.Models.{
  Boutique, User, Order, OrderItem, Db, Status, Product, PushSubscription,
}
use boutique_backend.Api.{
  Runtime, atomic, reads, gets, modify_db, pure, raise, ◌>>◌, http, varchar, positive_integer,
  get_object,
}
use boutique_backend.Api.Keeps.{
  Keeps, Keeps-pure, Keeps-raise, Keeps-atomic, Keeps-reads, Keeps-gets, Keeps-if, Keeps-modify_db,
  Keeps-bind, Keeps-check, Keeps-drawn,
}
use boutique_backend.Push.{Gateway, notify_order_status, delete_subscription}
use boutique_backend.Push.Frame.{notify_order_status-Keeps}
use boutique_backend.Orders.{
  clash_order, has_key, insert_order, insert_item, order_item, visible_product, cover_url,
  resolve_options, existing_order, create_order, add_line, add_lines, save_total, write_total,
  build_order, submit_order, place_order, find_order, set_status,
}
use boutique_backend.Orders.Schemas.{OrderItemIn, OrderCreate}
use boutique_backend.Orders.Recovery.{Keeps-on_integrity_error}

module _ {P : Db → Type 0} (rt : Runtime) where
  -- The transaction is all that `place_order` writes itself.
  module _ (store : Boutique) (customer : User) (payload : OrderCreate)
      (build : Keeps P (atomic (build_order rt store customer payload))) where
    submit_order-Keeps : Keeps P (submit_order rt store customer payload)
    unfolding submit_order
    submit_order-Keeps =
        Keeps-if (is_empty payload.items) (raise (http 400 "An order needs at least one item.")) _
          (Keeps-raise (http 400 "An order needs at least one item."))
          (Keeps-on_integrity_error _ _
            (Keeps-bind (atomic (build_order rt store customer payload))
              (λ (order : Order). pure (order, true)) build (λ order. Keeps-pure (order, true)))
            (Keeps-bind
              (reads λ db. get_object (has_key store customer payload.idempotency_key) db.orders)
              (λ (order : Order). pure (order, false))
              (Keeps-reads
                λ db. get_object (has_key store customer payload.idempotency_key) db.orders)
              (λ order. Keeps-pure (order, false))))

    found_or_submit :
        (others : Db → Db)
        → ((db : Db) → P db → P (others db))
        → (w : Option Order)
        → Keeps P (elim w [
          | some order ↦ pure (order, false)
          | none ↦ modify_db others >> submit_order rt store customer payload
        ])
    found_or_submit others keep (some order) = Keeps-pure (order, false)
    found_or_submit others keep none =
        Keeps-bind (modify_db others) _ (Keeps-modify_db others keep) (λ _. submit_order-Keeps)

    pub place_order-Keeps :
        (others : Db → Db)
        → ((db : Db) → P db → P (others db))
        → Keeps P (place_order rt others store customer payload)
    unfolding place_order
    place_order-Keeps others keep =
        Keeps-bind (gets (existing_order store customer payload.idempotency_key)) _
          (Keeps-gets (existing_order store customer payload.idempotency_key))
          (found_or_submit others keep)

  -- What no write of orders can break.
  pub insert_order-Keeps :
      ((db : Db) (orders : List Order) → P db → P (record db { orders = orders }))
      → (o : Order) → Keeps P (insert_order o)
  unfolding insert_order
  insert_order-Keeps free o = record {
    at = λ w h. elim (Bool-cases (exists (clash_order o) w.db.orders)) [
      | inl hit ↦ rw hit h
      | inr fresh ↦ rw fresh (free w.db (w.db.orders ++ o ∷ []) h)
    ];
  }

  -- What no write of lines can break.
  pub insert_item-Keeps :
      ((db : Db) (items : List OrderItem) → P db → P (record db { items = items }))
      → (i : OrderItem) → Keeps P (insert_item i)
  unfolding insert_item
  insert_item-Keeps items_free i = record {
    at = λ w h. elim (Bool-cases (exists (λ j. j.id == i.id) w.db.items)) [
      | inl hit ↦ rw hit h
      | inr free ↦ rw free (items_free w.db (w.db.items ++ i ∷ []) h)
    ];
  }

  -- A property that stands an INSERT of an order, a new total and an INSERT of a line.
  module _ (inserts : (o : Order) → Keeps P (insert_order o))
      (totals : (id total : ℕ) (db : Db)
        → P db
        → P (record db {
          orders = modify (λ o. o.id == id) (λ o. record o { total = total }) db.orders;
        }))
      (lines : (i : OrderItem) → Keeps P (insert_item i)) where
    pub create_order-Keeps :
        (store : Boutique) (customer : User) (payload : OrderCreate)
        → Keeps P (create_order rt store customer payload)
    unfolding create_order
    create_order-Keeps store customer payload = Keeps-drawn P _ λ n.
        Keeps-check P (varchar 255 payload.idempotency_key) _ λ _.
          Keeps-check P (varchar 255 payload.contact_name) _
            λ _. Keeps-check P (varchar 20 payload.phone) _ λ _. inserts _

    add_line-Keeps :
        (order : Order) (store : Boutique) (item : OrderItemIn)
        → Keeps P (add_line rt order store item)
    unfolding add_line
    add_line-Keeps order store item =
        Keeps-bind (reads (λ db. visible_product db.catalog store item.product_id)) _
          (Keeps-reads (λ db. visible_product db.catalog store item.product_id))
          λ (product : Product).
            Keeps-bind (gets (λ db. cover_url db.catalog product)) _
              (Keeps-gets (λ db. cover_url db.catalog product))
              λ url.
                Keeps-bind (reads (λ db. resolve_options db.catalog product item.option_ids)) _
                  (Keeps-reads (λ db. resolve_options db.catalog product item.option_ids))
                  λ options. Keeps-drawn P _ λ n.
                    Keeps-check P (positive_integer (pos item.quantity)) _ λ quantity.
                      Keeps-bind
                        (insert_item (order_item rt n order store product url quantity options)) _
                        (lines (order_item rt n order store product url quantity options))
                        λ _. Keeps-pure (product.price * item.quantity)

    pub add_lines-Keeps :
        (order : Order) (store : Boutique) (t : ℕ) (items : List OrderItemIn)
        → Keeps P (add_lines rt order store t items)
    unfolding add_lines
    add_lines-Keeps order store t [] = Keeps-pure t
    add_lines-Keeps order store t (item ∷ items) =
        Keeps-bind (add_line rt order store item) _ (add_line-Keeps order store item)
          λ line. add_lines-Keeps order store (t + line) items

    pub save_total-Keeps : (order : Order) (t : ℕ) → Keeps P (save_total order t)
    unfolding save_total
    save_total-Keeps order t = Keeps-check P (positive_integer (pos t)) (write_total order) λ n.
        Keeps-bind (modify_db _) _
          (Keeps-modify_db
            (λ db. record db {
              orders = modify (λ o. o.id == order.id) (λ o. record o { total = n }) db.orders;
            })
            (totals order.id n))
          λ _. Keeps-pure (record order { total = n })

    pub build_order-Keeps :
        (store : Boutique) (customer : User) (payload : OrderCreate)
        → Keeps P (atomic (build_order rt store customer payload))
    unfolding build_order
    build_order-Keeps store customer payload = Keeps-atomic _ (
        Keeps-bind (create_order rt store customer payload) _
          (create_order-Keeps store customer payload)
          λ order.
            Keeps-bind (add_lines rt order store 0 payload.items) _
              (add_lines-Keeps order store 0 payload.items) λ t. save_total-Keeps order t)

-- A new status, for what neither the columns `status` and `updated_at` nor the loss of a registration can break.
module _ {P : Db → Type 0} (rt : Runtime) (gw : Gateway)
    (mark : (id : ℕ) (status : Status) (now : ℕ) (db : Db)
      → P db
      → P (record db {
        orders =
            modify
              (λ o. o.id == id)
              (λ o. record o { status = status; updated_at = now })
              db.orders;
      }))
    (prune : (s : PushSubscription) (db : Db) → P db → P (delete_subscription s db)) where
  pub set_status-Keeps :
      (store : Boutique) (order_id : ℕ) (status : Status)
      → Keeps P (set_status rt gw store order_id status)
  unfolding set_status
  set_status-Keeps store order_id status =
      Keeps-bind (reads (find_order store order_id)) _ (Keeps-reads (find_order store order_id))
        λ (order : Order). Keeps-drawn P _ λ n.
          Keeps-bind (modify_db _) _
            (Keeps-modify_db
              (λ db. record db {
                orders =
                    modify (λ o. o.id == order.id)
                      (λ o. record o { status = status; updated_at = rt.now n }) db.orders;
              })
              (mark order.id status (rt.now n)))
            λ _.
              Keeps-bind (notify_order_status gw store order.customer order.id status) _
                (notify_order_status-Keeps gw prune store order.customer order.id status)
                λ _. Keeps-pure (record order { status = status; updated_at = rt.now n })
