-- ===== src/Orders/Ledger.antt =====
-- The totals of the stored orders: each is the sum of its lines, as they were snapshotted.
use boutique_backend.Prelude.{
  ◌*◌, ap, ℕ, string_eq, ◌+◌, ◌≡◌, refl, ◌∙◌, inl, inr, List, [], ◌∷◌, exists, ◌==◌, ℕ_eq, sym,
  arith, Bool-cases,
}
use boutique_backend.Prelude.Constraints.{exists_of_clash, exists-append_right}
use boutique_backend.Models.{Boutique, User, Order, OrderItem, Db, Status}
use boutique_backend.Api.{Runtime, World, ok, atomic, positive_integer, varchar}
use boutique_backend.Orders.Frame.{place_order-Keeps, set_status-Keeps}
use boutique_backend.Prelude.Int.{pos}
use boutique_backend.Api.Leads.{
  Leads, Leads-pure, Leads-bind, Leads-check, Leads-guard, Leads-read, Leads-get, Leads-drawn,
  Keeps-atomic_of_Leads,
}
use boutique_backend.Api.Keeps.{Keeps}
use boutique_backend.Push.{Gateway, delete_subscription}
use boutique_backend.Orders.{
  insert_order, insert_item, clash_order, order_item, create_order, add_line, add_lines, save_total,
  write_total, build_order, visible_product, cover_url, resolve_options, set_status, place_order,
}
use boutique_backend.Orders.Schemas.{OrderItemIn, OrderCreate, line_total}
use boutique_backend.Orders.Quote.{blank_order}
use boutique_backend.Orders.Totals.{
  IsPriced, IsUnderWay, no_lines_yet, still_owned, start_settled, modify_totals, modify_owned,
  one_line, line_settled, line_owned, total_settled,
}

insert_order-IsUnderWay : (o : Order) → Leads IsPriced (insert_order o) (λ new. IsUnderWay new.id 0)
unfolding insert_order
insert_order-IsUnderWay o = record {
  at = λ w a e h. elim (Bool-cases (exists (clash_order o) w.db.orders)) [
    | inl hit ↦ absurd (ground (arith, (rw hit at e)))
    | inr free ↦
        let apart =
          exists_of_clash (λ r. r.id == o.id) clash_order o (λ r k. ground (arith, k)) w.db.orders
            free in
        let same : o ≡ a = ground (arith, (rw free at e)) in
        rw (← same, free)
          (record {
            settled = start_settled o w.db.items w.db.orders h.totals;
            so_far = rw (no_lines_yet o.id w.db.orders w.db.items apart h.owned) refl;
            owned = still_owned o w.db.orders w.db.items h.owned;
            known =
                exists-append_right (λ (r : Order). r.id == o.id) w.db.orders (o ∷ [])
                  (ground arith);
          })
  ];
}

insert_item-IsUnderWay :
    (t : ℕ) (i : OrderItem)
    → Leads (IsUnderWay i.order t) (insert_item i) (λ _. IsUnderWay i.order (t + line_total i))
unfolding insert_item
insert_item-IsUnderWay t i = record {
  at = λ w a e h. elim (Bool-cases (exists (λ j. j.id == i.id) w.db.items)) [
    | inl hit ↦ absurd (ground (arith, (rw hit at e)))
    | inr free ↦ rw free (record {
      settled = line_settled i w.db.items w.db.orders h.settled;
      so_far =
          one_line i.order i w.db.items (ground arith) ∙ ap (λ (n : ℕ). n + line_total i) h.so_far;
      owned = line_owned w.db.orders i w.db.items h.owned h.known;
      known = h.known;
    })
  ];
}

-- A number that the column takes is the number that it stores.
stored_as_is : (n t : ℕ) → positive_integer (pos n) ≡ ok t → t ≡ n
unfolding positive_integer
stored_as_is n t h = ground arith

save_total-IsPriced :
    (o : Order) (t : ℕ) → Leads (IsUnderWay o.id t) (save_total o t) (λ _. IsPriced)
unfolding save_total
save_total-IsPriced o t = Leads-check (positive_integer (pos t)) (write_total o) λ n fits. record {
  at = λ w a e h.
      let same = stored_as_is t n fits in
      record {
        totals = total_settled o.id n w.db.items w.db.orders h.settled (h.so_far ∙ sym same);
        owned = modify_owned _ _ (λ r. refl) w.db.orders w.db.items h.owned;
      };
}

module _ (rt : Runtime) (store : Boutique) where
  add_line-IsUnderWay :
      (order : Order) (t : ℕ) (item : OrderItemIn)
      → Leads
          (IsUnderWay order.id t)
          (add_line rt order store item)
          (λ line. IsUnderWay order.id (t + line))
  unfolding add_line line_total
  add_line-IsUnderWay order t item =
      Leads-read (λ db. visible_product db.catalog store item.product_id) _
        λ product.
          Leads-get (λ db. cover_url db.catalog product) _
            λ url.
              Leads-read (λ db. resolve_options db.catalog product item.option_ids) _
                λ options. Leads-drawn _ λ n.
                  Leads-check (positive_integer (pos item.quantity)) _ λ quantity fits.
                    Leads-bind
                      (insert_item (order_item rt n order store product url quantity options)) _
                      (insert_item-IsUnderWay t
                        (order_item rt n order store product url quantity options))
                      λ _.
                        Leads-pure (product.price * item.quantity)
                          (λ db h. rw (← stored_as_is item.quantity quantity fits) h)

  add_lines-IsUnderWay :
      (order : Order) (t : ℕ) (items : List OrderItemIn)
      → Leads (IsUnderWay order.id t) (add_lines rt order store t items) (IsUnderWay order.id)
  unfolding add_lines
  add_lines-IsUnderWay order t [] = Leads-pure t (λ db h. h)
  add_lines-IsUnderWay order t (item ∷ items) =
      Leads-bind (add_line rt order store item) _ (add_line-IsUnderWay order t item)
        λ line. add_lines-IsUnderWay order (t + line) items

  create_order-IsUnderWay :
      (customer : User) (payload : OrderCreate)
      → Leads IsPriced (create_order rt store customer payload) (λ new. IsUnderWay new.id 0)
  unfolding create_order
  create_order-IsUnderWay customer payload = Leads-drawn _ λ n.
      Leads-guard (varchar 255 payload.idempotency_key) _ λ _.
        Leads-guard (varchar 255 payload.contact_name) _ λ _.
          Leads-guard (varchar 20 payload.phone) _
            λ _. insert_order-IsUnderWay (blank_order rt n store customer payload)

  pub build_order-IsPriced :
      (customer : User) (payload : OrderCreate)
      → Keeps IsPriced (atomic (build_order rt store customer payload))
  unfolding build_order
  build_order-IsPriced customer payload = Keeps-atomic_of_Leads _ (
      Leads-bind (create_order rt store customer payload) _
        (create_order-IsUnderWay customer payload)
        λ order.
          Leads-bind (add_lines rt order store 0 payload.items) _
            (add_lines-IsUnderWay order 0 payload.items) λ t. save_total-IsPriced order t)

  -- Whatever other requests commit in between, if they leave every stored order with the sum of its
  -- stored lines then so does `place_order`, on every branch and whether it returns or raises.
  pub place_order-IsPriced :
      (customer : User) (payload : OrderCreate) (others : Db → Db)
      → ((db : Db) → IsPriced db → IsPriced (others db))
      → (w : World) → IsPriced w.db
      → IsPriced (place_order rt others store customer payload w).1.db
  place_order-IsPriced customer payload others keep =
      (place_order-Keeps rt store customer payload (build_order-IsPriced customer payload) others
        keep).at

-- `set_status` leaves every stored order with the sum of its stored lines, whatever the push service
-- answers and whether the call returns or raises.
pub set_status-IsPriced :
    (rt : Runtime) (gw : Gateway) (store : Boutique) (order_id : ℕ) (status : Status) (w : World)
    → IsPriced w.db
    → IsPriced (set_status rt gw store order_id status w).1.db
unfolding delete_subscription
set_status-IsPriced rt gw store order_id status =
    (set_status-Keeps rt gw
      (λ id status now db h. record {
        totals = modify_totals db.items _ _ (λ o. refl) (λ o. refl) db.orders h.totals;
        owned = modify_owned _ _ (λ o. refl) db.orders db.items h.owned;
      })
      (λ s db h. record { totals = h.totals; owned = h.owned }) store order_id status).at
