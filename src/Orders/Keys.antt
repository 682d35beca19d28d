-- ===== src/Orders/Keys.antt =====
-- One order for each key: the unique constraint of the orders, replays and races.
use boutique_backend.Prelude.{
  ℕ, ◌≡◌, refl, String, false, true, some, none, List, [], ◌∷◌, exists, find?, modify, is_empty,
  ◌==◌, ℕ_eq, string_eq, arith, eq_iff, beq_refl,
}
use boutique_backend.Prelude.Constraints.{
  IsDistinct, append-IsDistinct, modify-IsDistinct, select_unique,
}
use boutique_backend.Models.{Boutique, User, Order, Status, Db}
use boutique_backend.Api.Keeps.{Keeps}
use boutique_backend.Api.Bind.{bind_of_err}
use boutique_backend.Api.{
  atomic, ◌>>=◌, ok, err, integrity_error, World, Runtime, varchar, get_object,
}
use boutique_backend.Orders.{
  clash_order, has_key, insert_order, existing_order, create_order, add_lines, save_total,
  build_order, submit_order, place_order,
}
use boutique_backend.Orders.Schemas.{OrderCreate}
use boutique_backend.Orders.Frame.{insert_item-Keeps, build_order-Keeps, place_order-Keeps}
use boutique_backend.Orders.Quote.{columns_fit, blank_order}

-- What the database keeps of the orders: no two with one id, or with one key of one customer at one
-- store.
abbrev pub KeysAreUnique : Db → Type 0
KeysAreUnique db = IsDistinct clash_order db.orders

clash_order_comm : (a b : Order) → clash_order a b ≡ clash_order b a
clash_order_comm a b =
    ground (
      arith,
      eq_iff a.idempotency_key b.idempotency_key,
      eq_iff b.idempotency_key a.idempotency_key,
    )

insert_order-KeysAreUnique : (o : Order) → Keeps KeysAreUnique (insert_order o)
unfolding insert_order
insert_order-KeysAreUnique o = record {
  at = λ w h. ground (arith, append-IsDistinct clash_order clash_order_comm o w.db.orders h);
}

update_total-KeysAreUnique :
    (id total : ℕ) (db : Db)
    → KeysAreUnique db
    → KeysAreUnique (record db {
      orders = modify (λ o. o.id == id) (λ o. record o { total = total }) db.orders;
    })
update_total-KeysAreUnique id total db =
    modify-IsDistinct clash_order (λ o. o.id == id) (λ o. record o { total = total }) (λ x y. refl)
      (λ x y. refl) db.orders

pub update_status-KeysAreUnique :
    (id : ℕ) (status : Status) (now : ℕ) (db : Db)
    → KeysAreUnique db
    → KeysAreUnique (record db {
      orders =
          modify (λ o. o.id == id) (λ o. record o { status = status; updated_at = now }) db.orders;
    })
update_status-KeysAreUnique id status now db =
    modify-IsDistinct clash_order (λ o. o.id == id)
      (λ o. record o { status = status; updated_at = now }) (λ x y. refl) (λ x y. refl) db.orders

-- Two orders with one key may not stand together.
pub clash_of_keys :
    (store : Boutique) (customer : User) (key : String) (x y : Order)
    → has_key store customer key x ≡ true
    → has_key store customer key y ≡ true
    → clash_order x y ≡ true
clash_of_keys store customer key x y hx hy = ground (
  arith,
  eq_iff x.idempotency_key key,
  eq_iff y.idempotency_key key,
  eq_iff x.idempotency_key y.idempotency_key,
)

key_is_taken :
    (store : Boutique) (customer : User) (key : String) (new o : Order) (orders : List Order)
    → has_key store customer key new ≡ true
    → find? (has_key store customer key) orders ≡ some o
    → exists (clash_order new) orders ≡ true
key_is_taken store customer key new o [] hn h = cc
key_is_taken store customer key new o (r ∷ rs) hn h =
    ground (
      arith,
      clash_of_keys store customer key new r hn,
      key_is_taken store customer key new o rs hn,
    )

module _ (rt : Runtime) (store : Boutique) where
  module _ (customer : User) (payload : OrderCreate) where
    pub build_order-KeysAreUnique :
        Keeps KeysAreUnique (atomic (build_order rt store customer payload))
    build_order-KeysAreUnique =
        build_order-Keeps rt insert_order-KeysAreUnique update_total-KeysAreUnique
          (insert_item-Keeps rt (λ db items h. h)) store customer payload

    -- Whatever other requests commit in between, if they keep the constraint then so does
    -- `place_order`, on every branch and whether it returns or raises.
    pub place_order-KeysAreUnique :
        (others : Db → Db)
        → ((db : Db) → KeysAreUnique db → KeysAreUnique (others db))
        → (w : World) → KeysAreUnique w.db
        → KeysAreUnique (place_order rt others store customer payload w).1.db
    place_order-KeysAreUnique others keep =
        (place_order-Keeps rt store customer payload build_order-KeysAreUnique others keep).at

    create_order_taken :
        (w : World) (o : Order)
        → columns_fit payload ≡ ok tt
        → find? (has_key store customer payload.idempotency_key) w.db.orders ≡ some o
        → (create_order rt store customer payload w).0 ≡ err integrity_error
    unfolding create_order columns_fit varchar insert_order
    create_order_taken w o fit h =
        let new = blank_order rt w.draws store customer payload in
        let own : has_key store customer payload.idempotency_key new ≡ true =
          ground (arith, beq_refl payload.idempotency_key) in
        ground (arith, key_is_taken store customer payload.idempotency_key new o w.db.orders own h)

    build_order_taken :
        (w : World) (o : Order)
        → columns_fit payload ≡ ok tt
        → find? (has_key store customer payload.idempotency_key) w.db.orders ≡ some o
        → (build_order rt store customer payload w).0 ≡ err integrity_error
    unfolding build_order
    build_order_taken w o fit h =
        bind_of_err (create_order rt store customer payload)
          (λ order. add_lines rt order store 0 payload.items >>= save_total order) w integrity_error
          (create_order_taken w o fit h)

    -- A request with items and with texts that fit their columns, that passed the fast-path check
    -- and then lost the race to another order with its key, returns the winner's order and writes
    -- nothing, if the winner keeps the unique constraint.
    pub place_order_race :
        (others : Db → Db) (w : World) (o : Order)
        → is_empty payload.items ≡ false
        → columns_fit payload ≡ ok tt
        → existing_order store customer payload.idempotency_key w.db ≡ none
        → KeysAreUnique (others w.db)
        → find? (has_key store customer payload.idempotency_key) (others w.db).orders ≡ some o
        → ((place_order rt others store customer payload w).0 ≡ ok (o, false))
          × ((place_order rt others store customer payload w).1.db ≡ others w.db)
    unfolding place_order submit_order get_object
    place_order_race others w o items fit missed unique won =
        let key = payload.idempotency_key in
        let db = others w.db in
        ground (
          arith,
          build_order_taken (record w { db = db }) o fit won,
          select_unique (has_key store customer key) clash_order (clash_of_keys store customer key)
              db.orders o unique won,
        )
