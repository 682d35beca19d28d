-- ===== src/Orders/Placement.antt =====
-- `place_order` against the quote: what it returns and writes, on every branch.
use boutique_backend.Prelude.{
  ◌≡◌, ◌≢◌, inl, inr, false, true, Option-cases, none, List, exists, ℕ_eq, string_eq, arith,
}
use boutique_backend.Models.{Boutique, User}
use boutique_backend.Api.{
  Error, ok, err, integrity_error, World, Runtime, positive_integer, varchar, Result-cases,
}
use boutique_backend.Orders.{has_key, existing_order, submit_order, place_order}
use boutique_backend.Orders.Schemas.{OrderCreate}
use boutique_backend.Orders.Lines.{lines_of-ne-integrity_error}
use boutique_backend.Orders.Quote.{
  Line, quote, columns_fit, quote_lines, priced_order, expected, IsFresh,
}
use boutique_backend.Orders.Building.{
  existing_order-none, after_build, build_order_lem, build_order_err,
}

module _ (rt : Runtime) (store : Boutique) (customer : User) (payload : OrderCreate) where
  module _ (w : World) (fresh : IsFresh rt w.draws w.db) where
    -- No quote fails by a constraint, so the handler of IntegrityError has nothing to do with it.
    quote_lines-ne-integrity_error : quote_lines w.db.catalog store payload ≢ err integrity_error
    unfolding quote_lines columns_fit varchar positive_integer
    quote_lines-ne-integrity_error h =
        ground (arith, lines_of-ne-integrity_error w.db.catalog store payload.items)

    -- The part after the fast-path check, on a key that no order has.
    pub submit_order_lem :
        exists (has_key store customer payload.idempotency_key) w.db.orders ≡ false
        → (lines : List Line) → quote w.db.catalog store payload ≡ ok lines
        → submit_order rt store customer payload w ≡ (
          ok (priced_order rt w.draws store customer payload lines, true),
          after_build rt store customer payload lines w,
        )
    unfolding submit_order quote
    submit_order_lem free lines h =
        ground (arith, build_order_lem rt store customer payload w fresh free lines)

    pub submit_order_err :
        exists (has_key store customer payload.idempotency_key) w.db.orders ≡ false
        → (e : Error) → quote w.db.catalog store payload ≡ err e
        → ((submit_order rt store customer payload w).0 ≡ err e)
          × ((submit_order rt store customer payload w).1.db ≡ w.db)
    unfolding submit_order quote
    submit_order_err free e h = ground (
      arith,
      build_order_err rt store customer payload w fresh free e,
      quote_lines-ne-integrity_error,
    )

    pub place_order_new :
        existing_order store customer payload.idempotency_key w.db ≡ none
        → (lines : List Line) → quote w.db.catalog store payload ≡ ok lines
        → place_order rt (λ db. db) store customer payload w ≡ (
          ok (priced_order rt w.draws store customer payload lines, true),
          after_build rt store customer payload lines w,
        )
    unfolding place_order
    place_order_new absent lines priced =
        let free = existing_order-none store customer payload.idempotency_key w.db absent in
        ground (arith, submit_order_lem free lines priced)

    -- Where no other request commits in between and the drawn ids are new, `place_order` returns and
    -- writes what the quote says: a known key gives the order that has it and writes nothing; a
    -- complaint of the quote is raised and nothing is written; else one order with the sum of its
    -- lines is added, with exactly the rows of those lines.
    pub place_order-expected :
        ((place_order rt (λ db. db) store customer payload w).0
          ≡ (expected rt store customer payload w.draws w.db).0)
        × ((place_order rt (λ db. db) store customer payload w).1.db
            ≡ (expected rt store customer payload w.draws w.db).1)
    unfolding place_order expected
    place_order-expected =
        elim (Option-cases (existing_order store customer payload.idempotency_key w.db)) [
          | inr (o, found) ↦ ground arith
          | inl absent ↦
              let free = existing_order-none store customer payload.idempotency_key w.db absent in
              elim (Result-cases (quote w.db.catalog store payload)) [
                | inl (lines, priced) ↦ ground (arith, submit_order_lem free lines priced)
                | inr (e, bad) ↦ ground (arith, submit_order_err free e bad)
              ]
        ]
