-- ===== src/Orders/Replay.antt =====
-- A repeated submit: the second `place_order` with a key gives the first one's order.
use boutique_backend.Prelude.{
  ◌≡◌, refl, ◌∙◌, inl, inr, String, Bool, List, false, true, some, [], ◌∷◌, ◌++◌, exists, arith,
  beq_refl, ℕ_eq, string_eq, Option-cases,
}
use boutique_backend.Prelude.Constraints.{select-append, select-eq-nil}
use boutique_backend.Models.{Boutique, User, Order, Db}
use boutique_backend.Api.{ok, World, Runtime, Result-cases}
use boutique_backend.Orders.{has_key, existing_order, place_order}
use boutique_backend.Orders.Schemas.{OrderCreate}
use boutique_backend.Orders.Quote.{quote, priced_order, IsFresh}
use boutique_backend.Orders.Building.{existing_order-none}
use boutique_backend.Orders.Placement.{submit_order_err, place_order_new}

existing_order_new :
    (store : Boutique) (customer : User) (key : String) (orders : List Order) (o : Order) (db : Db)
    → db.orders ≡ orders ++ o ∷ []
    → exists (has_key store customer key) orders ≡ false
    → has_key store customer key o ≡ true
    → existing_order store customer key db ≡ some o
unfolding existing_order
existing_order_new store customer key orders o db e free own =
    rw (e, select-append, select-eq-nil (has_key store customer key) orders free, own) refl

module _ (rt : Runtime) (store : Boutique) (customer : User) where
  place_order_known :
      (payload : OrderCreate) (w : World) (o : Order)
      → existing_order store customer payload.idempotency_key w.db ≡ some o
      → place_order rt (λ db. db) store customer payload w ≡ (ok (o, false), w)
  unfolding place_order
  place_order_known payload w o found = ground arith

  -- What a call returns is what the next check finds.
  existing_order-place_order :
      (payload : OrderCreate) (w : World) (o : Order) (created : Bool)
      → IsFresh rt w.draws w.db
      → (place_order rt (λ db. db) store customer payload w).0 ≡ ok (o, created)
      → existing_order store customer payload.idempotency_key
          (place_order rt (λ db. db) store customer payload w).1.db
        ≡ some o
  existing_order-place_order payload w o created fresh done =
      elim (Option-cases (existing_order store customer payload.idempotency_key w.db)) [
        | inr (known, found) ↦
            let same = place_order_known payload w known found in
            rw same (found ∙ ground (arith, same))
        | inl absent ↦
            let free = existing_order-none store customer payload.idempotency_key w.db absent in
            elim (Result-cases (quote w.db.catalog store payload)) [
              | inl (lines, priced) ↦
                  let p = priced_order rt w.draws store customer payload lines in
                  let own : has_key store customer payload.idempotency_key p ≡ true =
                    ground (arith, beq_refl payload.idempotency_key) in
                  let added =
                    place_order_new rt store customer payload w fresh absent lines priced in
                  rw added (
                    existing_order_new store customer payload.idempotency_key w.db.orders p _ refl
                      free own
                    ∙ ground (arith, added))
              | inr (e, bad) ↦ absurd (
                  unfold place_order in
                  ground (arith, submit_order_err rt store customer payload w fresh free e bad))
            ]
      ]

  -- After a call that returned an order, new or not, with no other request in between and new ids,
  -- the next call with the same key of the same
  -- customer at the same store, whatever else its payload says, returns that order as it is and
  -- changes nothing.
  pub place_order_replay :
      (first second : OrderCreate) (w : World) (o : Order) (created : Bool)
      → IsFresh rt w.draws w.db
      → second.idempotency_key ≡ first.idempotency_key
      → (place_order rt (λ db. db) store customer first w).0 ≡ ok (o, created)
      → let w' = (place_order rt (λ db. db) store customer first w).1 in
        place_order rt (λ db. db) store customer second w' ≡ (ok (o, false), w')
  place_order_replay first second w o created fresh same done =
      place_order_known second (place_order rt (λ db. db) store customer first w).1 o
        (rw same (existing_order-place_order first w o created fresh done))
