-- ===== src/Orders/Items.antt =====
-- src/apps/orders: the primary key of the order lines.
use boutique_backend.Prelude.{ℕ, ◌≡◌, Bool, none, refl, ◌==◌, ℕ_eq, arith}
use boutique_backend.Prelude.Constraints.{IsDistinct, append-IsDistinct, modify-IsDistinct}
use boutique_backend.Models.{Boutique, User, OrderItem, Db}
use boutique_backend.Api.{Runtime, atomic}
use boutique_backend.Api.Keeps.{Keeps}
use boutique_backend.Orders.{insert_item, build_order}
use boutique_backend.Orders.Schemas.{OrderCreate}
use boutique_backend.Orders.Frame.{insert_order-Keeps, build_order-Keeps}
use boutique_backend.Catalog.Writes.{names_product, without_product}

abbrev pub clash_item : OrderItem → OrderItem → Bool
clash_item a b = b.id == a.id

-- No two order lines share an id.
abbrev pub ItemsAreUnique : Db → Type 0
ItemsAreUnique db = IsDistinct clash_item db.items

clash_item_comm : (a b : OrderItem) → clash_item a b ≡ clash_item b a
clash_item_comm a b = ground arith

insert_item-ItemsAreUnique : (i : OrderItem) → Keeps ItemsAreUnique (insert_item i)
unfolding insert_item
insert_item-ItemsAreUnique i = record {
  at = λ w h. ground (arith, append-IsDistinct clash_item clash_item_comm i w.db.items h);
}

pub build_order-ItemsAreUnique :
    (rt : Runtime) (store : Boutique) (customer : User) (payload : OrderCreate)
    → Keeps ItemsAreUnique (atomic (build_order rt store customer payload))
build_order-ItemsAreUnique rt =
    build_order-Keeps rt (insert_order-Keeps rt (λ db xs h. h)) (λ id t db h. h)
      insert_item-ItemsAreUnique

-- A deletion changes no key of a line.
pub without-ItemsAreUnique :
    (id : ℕ) (db : Db) → ItemsAreUnique db → ItemsAreUnique (without_product id db)
unfolding without_product
without-ItemsAreUnique id db =
    modify-IsDistinct clash_item (names_product id) (λ i. record i { product = none }) (λ x y. refl)
      (λ x y. refl) db.items
