-- ===== src/Orders/Lines.antt =====
-- The loop of `place_order` writes the lines of the quote.
use boutique_backend.Prelude.{
  ℕ, ◌+◌, ◌≤◌, ◌≡◌, ◌≢◌, refl, sym, inl, inr, ◌∙◌, false, List, [], ◌∷◌, ◌++◌, exists, sum_of,
  length, ◌==◌, ℕ_eq, arith,
}
use boutique_backend.Prelude.Constraints.{exists-append}
use boutique_backend.Models.{Catalog, Boutique, Order, OrderItem}
use boutique_backend.Api.{
  Error, ok, err, World, Runtime, integrity_error, get_object_or_404, positive_integer, pure,
  Result-cases,
}
use boutique_backend.Api.Bind.{bind_of_ok, bind_of_err}
use native.Mathlib.Nat.{add_assoc}
use boutique_backend.Orders.{visible_product, resolve_options, add_line, add_lines, order_item}
use boutique_backend.Orders.Schemas.{OrderItemIn}
use boutique_backend.Orders.Quote.{Line, line_price, line_of, lines_of, item_rows}
use mathlib.Core.List.{append_assoc, append-nil}

module _ (rt : Runtime) (order : Order) (store : Boutique) where
  -- No item has an id that is still to be drawn.
  abbrev pub ItemsFresh : World → Type 0
  ItemsFresh w =
      (k : ℕ) → w.draws ≤ k → exists (λ (i : OrderItem). i.id == rt.uuid4 k) w.db.items ≡ false

  abbrev pub after_line : Line → World → World
  after_line l w = record w {
    db = record w.db {
      items =
          w.db.items ++ order_item rt w.draws order store l.product l.url l.quantity l.options ∷ [];
    };
    draws = w.draws + 1;
  }

  pub add_line_lem :
      (item : OrderItemIn) (w : World) (l : Line)
      → ItemsFresh w
      → line_of w.db.catalog store item ≡ ok l
      → add_line rt order store item w ≡ (ok (line_price l), after_line l w)
  unfolding add_line line_of positive_integer
  add_line_lem item w l fresh h = ground (arith, fresh w.draws)

  pub add_line_err :
      (item : OrderItemIn) (w : World) (e : Error)
      → line_of w.db.catalog store item ≡ err e
      → (add_line rt order store item w).0 ≡ err e
  unfolding add_line line_of positive_integer
  add_line_err item w e h = ground arith

  after_line-ItemsFresh :
      (l : Line) (w : World)
      → ((a b : ℕ) → rt.uuid4 a ≡ rt.uuid4 b → a ≡ b)
      → ItemsFresh w
      → ItemsFresh (after_line l w)
  after_line-ItemsFresh l w injective fresh k h =
      exists-append (λ (i : OrderItem). i.id == rt.uuid4 k) w.db.items
        (order_item rt w.draws order store l.product l.url l.quantity l.options ∷ [])
        (fresh k (omega arith)) (ground (arith, injective w.draws k))

  abbrev pub after_lines : List Line → World → World
  after_lines ls w = record w {
    db = record w.db { items = w.db.items ++ item_rows rt w.draws order store ls };
    draws = w.draws + length ls;
  }

  after_lines-cons :
      (l : Line) (ls : List Line) (w : World)
      → after_lines ls (after_line l w) ≡ after_lines (l ∷ ls) w
  after_lines-cons l ls w =
      let rows = item_rows rt (w.draws + 1) order store ls in
      let row = order_item rt w.draws order store l.product l.url l.quantity l.options in
      let moved : (w.db.items ++ row ∷ []) ++ rows ≡ w.db.items ++ row ∷ rows =
        rw append_assoc refl in
      let counted : w.draws + 1 + length ls ≡ w.draws + length (l ∷ ls) = omega arith in
      λ i. record w { db = record w.db { items = moved i }; draws = counted i }

  lines_of_cases :
      (item : OrderItemIn) (items : List OrderItemIn) (w : World) (ls : List Line)
      → lines_of w.db.catalog store (item ∷ items) ≡ ok ls
      → (l : Line) × (rest : List Line) × (ls ≡ l ∷ rest)
        × (line_of w.db.catalog store item ≡ ok l)
        × (lines_of w.db.catalog store items ≡ ok rest)
  unfolding lines_of
  lines_of_cases item items w ls h = ground arith

  no_lines :
      (t : ℕ) (w : World) (ls : List Line)
      → lines_of w.db.catalog store [] ≡ ok ls
      → pure t w ≡ (ok (t + sum_of line_price ls), after_lines ls w)
  unfolding lines_of
  no_lines t w [] h =
      let same : w.db.items ≡ w.db.items ++ [] = sym (append-nil w.db.items) in
      let counted : w.draws ≡ w.draws + 0 = omega arith in
      let total : t ≡ t + 0 = omega arith in
      λ i. (ok (total i), record w { db = record w.db { items = same i }; draws = counted i })
  no_lines t w (l ∷ ls) h = cc

  -- Where the quote has lines, the loop writes them and returns their sum.
  pub add_lines_lem :
      (items : List OrderItemIn) (t : ℕ) (w : World) (ls : List Line)
      → ((a b : ℕ) → rt.uuid4 a ≡ rt.uuid4 b → a ≡ b)
      → ItemsFresh w
      → lines_of w.db.catalog store items ≡ ok ls
      → add_lines rt order store t items w ≡ (ok (t + sum_of line_price ls), after_lines ls w)
  unfolding add_lines
  add_lines_lem [] t w ls injective fresh h = no_lines t w ls h
  add_lines_lem (item ∷ items) t w ls injective fresh h =
      let (l, rest, e, first, others) = lines_of_cases item items w ls h in
      rw e (
        bind_of_ok (add_line rt order store item) (λ n. add_lines rt order store (t + n) items) w
          (line_price l) (after_line l w) (add_line_lem item w l fresh first)
        ∙ add_lines_lem items (t + line_price l) (after_line l w) rest injective
            (after_line-ItemsFresh l w injective fresh) others
        ∙ (λ i. (
          ok (add_assoc t (line_price l) (sum_of line_price rest) i),
          after_lines-cons l rest w i,
        )))

  -- Where it has a complaint, the loop raises it.
  pub add_lines_err :
      (items : List OrderItemIn) (t : ℕ) (w : World) (e : Error)
      → ((a b : ℕ) → rt.uuid4 a ≡ rt.uuid4 b → a ≡ b)
      → ItemsFresh w
      → lines_of w.db.catalog store items ≡ err e
      → (add_lines rt order store t items w).0 ≡ err e
  unfolding add_lines lines_of
  add_lines_err [] t w e injective fresh h = cc
  add_lines_err (item ∷ items) t w e injective fresh h =
      elim (Result-cases (line_of w.db.catalog store item)) [
        | inl (l, first) ↦
            rw
              (bind_of_ok (add_line rt order store item)
                (λ n. add_lines rt order store (t + n) items) w (line_price l) (after_line l w)
                (add_line_lem item w l fresh first))
              (add_lines_err items (t + line_price l) (after_line l w) e injective
                (after_line-ItemsFresh l w injective fresh) (ground arith))
        | inr (e', first) ↦
            bind_of_err (add_line rt order store item) (λ n. add_lines rt order store (t + n) items)
              w e (add_line_err item w e (ground arith))
      ]

-- A line is refused with an HTTP error or for its size, never by a constraint.
line_of-ne-integrity_error :
    (c : Catalog) (store : Boutique) (item : OrderItemIn)
    → line_of c store item ≢ err integrity_error
unfolding line_of visible_product get_object_or_404 resolve_options positive_integer
line_of-ne-integrity_error c store item h = ground arith

pub lines_of-ne-integrity_error :
    (c : Catalog) (store : Boutique) (items : List OrderItemIn)
    → lines_of c store items ≢ err integrity_error
unfolding lines_of
lines_of-ne-integrity_error c store [] h = cc
lines_of-ne-integrity_error c store (item ∷ items) h =
    ground
      (arith, line_of-ne-integrity_error c store item, lines_of-ne-integrity_error c store items)
