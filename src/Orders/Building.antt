-- ===== src/Orders/Building.antt =====
-- The transaction of an order against the lines of its quote: what `build_order` returns and writes.
use boutique_backend.Prelude.{
  ℕ, String, length, ◌+◌, ◌≡◌, refl, sym, subst, ◌∙◌, inl, inr, false, none, List, [], ◌∷◌, ◌++◌,
  exists, modify, sum_of, ◌==◌, ◌&&◌, ℕ_eq, string_eq, arith, eq_iff,
}
use boutique_backend.Prelude.Constraints.{exists_of_select-eq-nil}
use boutique_backend.Prelude.Sorting.{order_by_eq_nil}
use boutique_backend.Prelude.Int.{pos}
use native.Mathlib.Nat.{zero-add}
use boutique_backend.Models.{Boutique, User, Order, Db}
use boutique_backend.Api.{
  Error, ok, err, World, Runtime, positive_integer, varchar, Result-cases, positive_integer_lem,
  lift, ◌>>=◌,
}
use boutique_backend.Api.Bind.{bind_of_ok, bind_of_err}
use boutique_backend.Orders.{
  clash_order, has_key, existing_order, create_order, add_lines, save_total, build_order,
  write_total,
}
use boutique_backend.Orders.Schemas.{OrderCreate}
use boutique_backend.Orders.Lines.{ItemsFresh, after_lines, add_lines_lem, add_lines_err}
use boutique_backend.Orders.Quote.{
  Line, line_price, columns_fit, quote_lines, lines_of, blank_order, priced_order, item_rows,
  IsFresh,
}

-- A table in which no order has the key admits a new order with it.
no_clash :
    (o : Order) (orders : List Order)
    → exists (λ r. r.id == o.id) orders ≡ false
    → exists
        (λ r.
          r.store == o.store
          && (r.customer == o.customer && r.idempotency_key == o.idempotency_key))
        orders
      ≡ false
    → exists (clash_order o) orders ≡ false
no_clash o [] h k = refl
no_clash o (r ∷ rs) h k = ground (
  arith,
  eq_iff o.idempotency_key r.idempotency_key,
  eq_iff r.idempotency_key o.idempotency_key,
  no_clash o rs,
)

-- The total goes to the new row alone.
modify_last :
    (f : Order → Order) (o : Order) (orders : List Order)
    → exists (λ r. r.id == o.id) orders ≡ false
    → modify (λ r. r.id == o.id) f (orders ++ o ∷ []) ≡ orders ++ f o ∷ []
modify_last f o [] h = ground arith
modify_last f o (r ∷ rs) h = ground (arith, modify_last f o rs)

-- The fast-path check finds no order exactly where none has the key.
pub existing_order-none :
    (store : Boutique) (customer : User) (key : String) (db : Db)
    → existing_order store customer key db ≡ none
    → exists (has_key store customer key) db.orders ≡ false
unfolding existing_order
existing_order-none store customer key db h =
    exists_of_select-eq-nil (has_key store customer key) db.orders (order_by_eq_nil _ _ h)

module _ (rt : Runtime) (store : Boutique) (customer : User) (payload : OrderCreate) where
  abbrev after_create : World → World
  after_create w = record w {
    db = record w.db { orders = w.db.orders ++ blank_order rt w.draws store customer payload ∷ [] };
    draws = w.draws + 1;
  }

  abbrev pub after_build : List Line → World → World
  after_build lines w = record w {
    db = record w.db {
      orders = w.db.orders ++ priced_order rt w.draws store customer payload lines ∷ [];
      items =
          w.db.items
          ++ item_rows rt (w.draws + 1) (blank_order rt w.draws store customer payload) store lines;
    };
    draws = w.draws + 1 + length lines;
  }

  module _ (w : World) (fresh : IsFresh rt w.draws w.db) where
    blank_fits :
        exists (has_key store customer payload.idempotency_key) w.db.orders ≡ false
        → exists (clash_order (blank_order rt w.draws store customer payload)) w.db.orders ≡ false
    blank_fits free =
        no_clash (blank_order rt w.draws store customer payload) w.db.orders
          (fresh.orders w.draws (omega arith)) free

    create_order_lem :
        exists (has_key store customer payload.idempotency_key) w.db.orders ≡ false
        → columns_fit payload ≡ ok tt
        → create_order rt store customer payload w
          ≡ (ok (blank_order rt w.draws store customer payload), after_create w)
    unfolding create_order columns_fit varchar
    create_order_lem free fit = ground (arith, blank_fits free)

    create_order_err :
        (e : Error)
        → columns_fit payload ≡ err e
        → (create_order rt store customer payload w).0 ≡ err e
    unfolding create_order columns_fit varchar
    create_order_err e h = ground arith

    -- The world after the loop of a new order.
    abbrev after_loop : List Line → World
    after_loop lines =
        after_lines rt (blank_order rt w.draws store customer payload) store lines (after_create w)

    save_total_lem :
        (lines : List Line) (t : ℕ)
        → positive_integer (pos (sum_of line_price lines)) ≡ ok t
        → save_total
            (blank_order rt w.draws store customer payload)
            (sum_of line_price lines)
            (after_loop lines)
          ≡ (ok (priced_order rt w.draws store customer payload lines), after_build lines w)
    unfolding save_total
    save_total_lem lines t h =
        let o = blank_order rt w.draws store customer payload in
        let n = sum_of line_price lines in
        let built = after_build lines w in
        let moved =
          modify_last (λ r. record r { total = n }) o w.db.orders
            (fresh.orders w.draws (omega arith)) in
        bind_of_ok (lift (positive_integer (pos n))) (write_total o) (after_loop lines) n
          (after_loop lines) (λ i. (positive_integer_lem n t h i, after_loop lines))
        ∙ (λ i. (
          ok (record o { total = n }),
          record built { db = record built.db { orders = moved i } },
        ))

    loop-ItemsFresh :
        ItemsFresh rt (blank_order rt w.draws store customer payload) store (after_create w)
    loop-ItemsFresh k h = fresh.items k (omega arith)

    quote_lines_cases :
        (lines : List Line)
        → quote_lines w.db.catalog store payload ≡ ok lines
        → (t : ℕ) × (columns_fit payload ≡ ok tt)
          × (lines_of w.db.catalog store payload.items ≡ ok lines)
          × (positive_integer (pos (sum_of line_price lines)) ≡ ok t)
    unfolding quote_lines positive_integer
    quote_lines_cases lines h = (sum_of line_price lines, ground arith, ground arith, ground arith)

    -- A quote with lines is what the transaction writes.
    pub build_order_lem :
        exists (has_key store customer payload.idempotency_key) w.db.orders ≡ false
        → (lines : List Line) → quote_lines w.db.catalog store payload ≡ ok lines
        → build_order rt store customer payload w
          ≡ (ok (priced_order rt w.draws store customer payload lines), after_build lines w)
    unfolding build_order
    build_order_lem free lines h =
        let o = blank_order rt w.draws store customer payload in
        let (t, fit, priced, total) = quote_lines_cases lines h in
        bind_of_ok (create_order rt store customer payload)
          (λ order. add_lines rt order store 0 payload.items >>= save_total order) w o
          (after_create w) (create_order_lem free fit)
        ∙ bind_of_ok (add_lines rt o store 0 payload.items) (save_total o) (after_create w)
            (sum_of line_price lines) (after_loop lines)
            (add_lines_lem rt o store payload.items 0 (after_create w) lines fresh.injective
                loop-ItemsFresh priced
              ∙ λ i. (ok (zero-add (sum_of line_price lines) i), after_loop lines))
        ∙ save_total_lem lines t total

    loop_err :
        columns_fit payload ≡ ok tt
        → (e : Error) → quote_lines w.db.catalog store payload ≡ err e
        → let o = blank_order rt w.draws store customer payload in
          ((add_lines rt o store 0 payload.items >>= save_total o) (after_create w)).0 ≡ err e
    unfolding quote_lines save_total
    loop_err fit e h = elim (Result-cases (lines_of w.db.catalog store payload.items)) [
      | inl (lines, priced) ↦
          let o = blank_order rt w.draws store customer payload in
          rw
            (bind_of_ok (add_lines rt o store 0 payload.items) (save_total o) (after_create w)
              (0 + sum_of line_price lines) (after_loop lines)
              (add_lines_lem rt o store payload.items 0 (after_create w) lines fresh.injective
                loop-ItemsFresh priced))
            (rw (zero-add (sum_of line_price lines)) (
              bind_of_err (lift (positive_integer (pos (sum_of line_price lines)))) (write_total o)
                (after_loop lines) e (ground arith)))
      | inr (e', bad) ↦
          let o = blank_order rt w.draws store customer payload in
          bind_of_err (add_lines rt o store 0 payload.items) (save_total o) (after_create w) e (
            add_lines_err rt o store payload.items 0 (after_create w) e fresh.injective
              loop-ItemsFresh (ground arith))
    ]

    -- A complaint of the quote is what the transaction raises.
    pub build_order_err :
        exists (has_key store customer payload.idempotency_key) w.db.orders ≡ false
        → (e : Error) → quote_lines w.db.catalog store payload ≡ err e
        → (build_order rt store customer payload w).0 ≡ err e
    unfolding build_order quote_lines
    build_order_err free e h = elim (Result-cases (columns_fit payload)) [
      | inl (_, fit) ↦
          let o = blank_order rt w.draws store customer payload in
          subst (λ r. r.0 ≡ err e)
            (sym (
              bind_of_ok (create_order rt store customer payload)
                (λ order. add_lines rt order store 0 payload.items >>= save_total order) w o
                (after_create w) (create_order_lem free fit)))
            (loop_err fit e h)
      | inr (e', unfit) ↦
          bind_of_err (create_order rt store customer payload)
            (λ order. add_lines rt order store 0 payload.items >>= save_total order) w e
            (create_order_err e (ground arith))
    ]
