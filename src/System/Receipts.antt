-- ===== src/System/Receipts.antt =====
-- What a customer reads of her order, at any time: src/apps/orders over the courses of the database.
use boutique_backend.Prelude.{
  ℕ, ◌+◌, ◌*◌, ◌≡◌, refl, ap, ◌∙◌, inl, String, some, List, [], ◌∷◌, map, select, sum_of, All, ◌==◌,
  ◌&&◌, ℕ_eq, arith,
}
use boutique_backend.Prelude.Members.{In, In-select}
use boutique_backend.Models.{Boutique, User, Order, OrderItem, Db}
use boutique_backend.Api.{Result, ok, err, World, ◌>>=◌, reads, get_object_or_404}
use boutique_backend.Tenancy.{find_store, authenticate}
use boutique_backend.Orders.Schemas.{line_total}
use boutique_backend.Orders.Selectors.{customer_order}
use boutique_backend.Orders.Requests.{my_order}
use boutique_backend.Orders.Views.{OrderLine, order_line, order_view, order_view_lem}
use boutique_backend.System.{Outside, Run}
use boutique_backend.System.Soundness.{IsSound, Run-IsSound}

customer_order_lem :
    (store : Boutique) (customer : User) (order_id : ℕ) (db : Db) (o : Order)
    → customer_order store customer order_id db ≡ ok o
    → In o db.orders × (o.customer ≡ customer.id) × (o.id ≡ order_id)
unfolding customer_order get_object_or_404
customer_order_lem store customer order_id db o h =
    let fits =
      λ (r : Order). (r.store == store.id && r.customer == customer.id) && r.id == order_id in
    let only : select fits db.orders ≡ o ∷ [] = ground arith in
    let (row, own) = (In-select fits o db.orders).0 (rw only (inl refl)) in
    (row, ground (arith, own), ground (arith, own))

read_end :
    (customer : User) (order_id : ℕ) (w : World) (o : Order) (store : Result Boutique)
    → (((λ (v : World). (store, v)) >>= λ (s : Boutique).
          reads (customer_order s customer order_id))
        w).0
      ≡ ok o
    → In o w.db.orders × (o.customer ≡ customer.id) × (o.id ≡ order_id)
read_end customer order_id w o (ok s) h = customer_order_lem s customer order_id w.db o h
read_end customer order_id w o (err e) h = absurd (ground (arith, h))

-- What a line comes to.
abbrev pub price_of : OrderLine → ℕ
price_of l = l.unit_price * l.quantity

line_prices :
    (items : List OrderItem)
    → (sum_of (λ (l : OrderLine). l.line_total) (map order_line items)
        ≡ sum_of price_of (map order_line items))
      × All (λ (l : OrderLine). l.line_total ≡ price_of l) (map order_line items)
unfolding order_line line_total
line_prices [] = (refl, tt)
line_prices (i ∷ is) =
    let (sums, each) = line_prices is in
    (ap (λ n. i.unit_price * i.quantity + n) sums, (refl, each))

-- After any course of requests from a sound database, an order that the customer's endpoint answers is
-- hers, with the id that she asked for; every line that she is shown costs its unit price times its
-- quantity, and the total that she is shown is the sum of these.
pub my_order_lem :
    (o : Outside) (start : Db) (w : World) (customer : User) (slug : String) (order_id : ℕ)
    (order : Order)
    → IsSound start
    → Run o start w.db
    → (my_order (some customer) slug order_id w).0 ≡ ok order
    → let view = order_view w.db order in
      (order.customer ≡ customer.id)
      × (view.id ≡ order_id)
      × All (λ (l : OrderLine). l.line_total ≡ price_of l) view.items
      × (view.total ≡ sum_of price_of view.items)
unfolding my_order authenticate order_view
my_order_lem o start w customer slug order_id order sound run h =
    let (stored, own, named) = read_end customer order_id w order (find_store slug w.db) h in
    let (sums, each) = line_prices (select (λ i. i.order == order.id) w.db.items) in
    (
      own,
      named,
      each,
      order_view_lem w.db order (Run-IsSound o start w.db run sound).priced stored ∙ sums,
    )
