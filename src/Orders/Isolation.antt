-- ===== src/Orders/Isolation.antt =====
-- Whose orders the handlers show and change, and what validation promises to the services.
use Prim.Native.String.{count}
use boutique_backend.Prelude.{
  ℕ, ◌≡◌, refl, inl, String, true, ◌&&◌, some, [], ◌∷◌, select, leb, ◌==◌, ℕ_eq, arith,
}
use boutique_backend.Prelude.Members.{In, In-select}
use boutique_backend.Models.{Boutique, Membership, User, Db, Order}
use boutique_backend.Api.{Result, ok, err, World, ◌>>=◌, reads, get_object_or_404, varchar}
use boutique_backend.Tenancy.{Capability, require_membership, authenticate}
use boutique_backend.Tenancy.Access.{require_membership_sound}
use boutique_backend.Orders.Schemas.{RawOrder, OrderCreate, read_items, read_order}
use boutique_backend.Orders.Quote.{columns_fit}
use boutique_backend.Orders.Selectors.{store_order}
use boutique_backend.Orders.Requests.{admin_order}

only_store_order :
    (store : Boutique) (order_id : ℕ) (db : Db) (o : Order)
    → store_order store order_id db ≡ ok o
    → select (λ (r : Order). r.store == store.id && r.id == order_id) db.orders ≡ o ∷ []
unfolding store_order get_object_or_404
only_store_order store order_id db o h = ground arith

store_order_lem :
    (store : Boutique) (order_id : ℕ) (db : Db) (o : Order)
    → store_order store order_id db ≡ ok o
    → In o db.orders × (o.store ≡ store.id) × (o.id ≡ order_id)
store_order_lem store order_id db o h =
    let (row, fits) =
      (In-select (λ (r : Order). r.store == store.id && r.id == order_id) o db.orders).0
        (rw (only_store_order store order_id db o h) (inl refl)) in
    (row, ground arith, ground arith)

-- A member of the store that has the order.
abbrev pub Sees : User → Order → Db → Membership → Type 0
Sees user o db m = In m db.memberships × (m.user ≡ user.id) × (m.boutique ≡ o.store)

gated :
    (user : User) (slug : String) (order_id : ℕ) (w : World) (o : Order)
    (gate : Result (Membership × Boutique))
    → ((m : Membership) (b : Boutique)
        → gate ≡ ok (m, b)
        → In m w.db.memberships × (m.user ≡ user.id) × (m.boutique ≡ b.id))
    → (((λ (v : World). (gate, v)) >>= λ (r : Membership × Boutique).
          reads (store_order r.1 order_id))
        w).0
      ≡ ok o
    → (m : Membership) × (Sees user o w.db m × In o w.db.orders × (o.id ≡ order_id))
gated user slug order_id w o (ok (m, b)) member h =
    let (row, own, here) = member m b refl in
    let (stored, of_store, named) = store_order_lem b order_id w.db o h in
    (m, ((row, own, ground arith), stored, named))
gated user slug order_id w o (err e) member h = absurd (ground arith)

-- An order that the seller's detail endpoint shows is a stored one with the id that was asked for,
-- and the caller holds a membership at the boutique that the order belongs to.
pub admin_order_lem :
    (user : User) (slug : String) (order_id : ℕ) (w : World) (o : Order)
    → (admin_order (some user) slug order_id w).0 ≡ ok o
    → (m : Membership) × (Sees user o w.db m × In o w.db.orders × (o.id ≡ order_id))
unfolding admin_order authenticate
admin_order_lem user slug order_id w o h =
    gated user slug order_id w o (require_membership user slug (some Capability.work_orders) w.db)
      (λ m b e.
        let (_, _, row, own, here, _) =
          require_membership_sound user slug (some Capability.work_orders) w.db m b e in
        (row, own, here))
      h

varchar_of_fits : (n : ℕ) (s : String) → leb (count s) n ≡ true → varchar n s ≡ ok s
unfolding varchar
varchar_of_fits n s h = ground arith

-- A body that validation lets through has its key unchanged and its items as read, and its texts fit
-- their columns.
pub read_order_lem :
    (raw : RawOrder) (payload : OrderCreate)
    → read_order raw ≡ some payload
    → (columns_fit payload ≡ ok tt)
      × (payload.idempotency_key ≡ raw.idempotency_key)
      × (read_items raw.items ≡ some payload.items)
unfolding read_order columns_fit
read_order_lem raw payload h = ground (
  arith,
  varchar_of_fits 255 raw.idempotency_key,
  varchar_of_fits 255 raw.contact_name,
  varchar_of_fits 20 raw.phone,
)
