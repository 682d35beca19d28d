-- ===== src/Orders/Totals.antt =====
-- The sums over the stored lines that a total is compared with, and how the tables change while an
-- order is placed.
use boutique_backend.Prelude.{
  ℕ, string_eq, ◌+◌, ◌≡◌, refl, ◌∙◌, inl, inr, Bool, false, true, List, [], ◌∷◌, ◌++◌, exists,
  select, modify, sum_of, All, ◌==◌, ℕ_eq, sym, arith, Bool-cases,
}
use boutique_backend.Prelude.Constraints.{exists-append_left, exists-modify}
use mathlib.Core.Bool.{false≢true}
use boutique_backend.Models.{Order, OrderItem, Db}
use boutique_backend.Orders.Schemas.{line_total}

-- The sum of an order's line totals, over the stored lines.
abbrev pub charged : List OrderItem → Order → ℕ
charged items o = sum_of line_total (select (λ i. i.order == o.id) items)

-- Every order costs what its lines come to, and every line belongs to an order.
pub record ArePriced (orders : List Order) (items : List OrderItem) : Type 0 where
  pub totals : All (λ o. o.total ≡ charged items o) orders
  pub owned : All (λ (i : OrderItem). exists (λ (o : Order). o.id == i.order) orders ≡ true) items

abbrev pub IsPriced : Db → Type 0
IsPriced db = ArePriced db.orders db.items

-- The lines that the table had are those of the orders that it had.
pub no_lines_yet :
    (k : ℕ) (orders : List Order) (items : List OrderItem)
    → exists (λ (o : Order). o.id == k) orders ≡ false
    → All (λ (i : OrderItem). exists (λ (o : Order). o.id == i.order) orders ≡ true) items
    → select (λ (i : OrderItem). i.order == k) items ≡ []
no_lines_yet k orders [] fresh owned = refl
no_lines_yet k orders (i ∷ is) fresh owned = elim (Bool-cases (i.order == k)) [
  | inl e ↦
      let same : i.order ≡ k = ground arith in
      absurd (false≢true (sym fresh ∙ (rw (← same) owned.0)))
  | inr e ↦ rw (e, no_lines_yet k orders is fresh owned.1) refl
]

pub still_owned :
    (new : Order) (orders : List Order) (items : List OrderItem)
    → All (λ (i : OrderItem). exists (λ (o : Order). o.id == i.order) orders ≡ true) items
    → All
        (λ (i : OrderItem). exists (λ (o : Order). o.id == i.order) (orders ++ new ∷ []) ≡ true)
        items
still_owned new orders [] h = tt
still_owned new orders (i ∷ is) h =
    (exists-append_left (λ o. o.id == i.order) orders (new ∷ []) h.0, still_owned new orders is h.1)

-- An order under way: its lines come to `t` so far, and its own total is not written yet.
pub record IsUnderWay (id t : ℕ) (db : Db) : Type 0 where
  pub settled : All (λ o. (o.id == id) ≡ false → o.total ≡ charged db.items o) db.orders
  pub so_far : sum_of line_total (select (λ i. i.order == id) db.items) ≡ t
  pub owned :
      All (λ (i : OrderItem). exists (λ (o : Order). o.id == i.order) db.orders ≡ true) db.items
  pub known : exists (λ (o : Order). o.id == id) db.orders ≡ true

pub start_settled :
    (new : Order) (items : List OrderItem) (orders : List Order)
    → All (λ (o : Order). o.total ≡ charged items o) orders
    → All (λ (o : Order). (o.id == new.id) ≡ false → o.total ≡ charged items o) (orders ++ new ∷ [])
start_settled new items [] h = ((λ e. absurd (ground arith)), tt)
start_settled new items (o ∷ os) h = ((λ e. h.0), start_settled new items os h.1)

-- A new status moves no money.
pub modify_totals :
    (items : List OrderItem) (p : Order → Bool) (f : Order → Order)
    → ((o : Order) → (f o).total ≡ o.total)
    → ((o : Order) → (f o).id ≡ o.id)
    → (orders : List Order) → All (λ (o : Order). o.total ≡ charged items o) orders
    → All (λ (o : Order). o.total ≡ charged items o) (modify p f orders)
modify_totals items p f total id [] h = tt
modify_totals items p f total id (o ∷ os) h = (
  elim (Bool-cases (p o)) [ inl e ↦ rw (e, total o, id o) h.0 | inr e ↦ rw e h.0 ],
  modify_totals items p f total id os h.1,
)

pub modify_owned :
    (p : Order → Bool) (f : Order → Order)
    → ((o : Order) → (f o).id ≡ o.id)
    → (orders : List Order) (items : List OrderItem)
    → All (λ (i : OrderItem). exists (λ (o : Order). o.id == i.order) orders ≡ true) items
    → All
        (λ (i : OrderItem). exists (λ (o : Order). o.id == i.order) (modify p f orders) ≡ true)
        items
modify_owned p f id orders [] h = tt
modify_owned p f id orders (i ∷ is) h = (
  exists-modify (λ o. o.id == i.order) p f (λ o. rw (id o) refl) orders ∙ h.0,
  modify_owned p f id orders is h.1,
)

pub one_line :
    (id : ℕ) (new : OrderItem) (items : List OrderItem)
    → (new.order == id) ≡ true
    → sum_of line_total (select (λ i. i.order == id) (items ++ new ∷ []))
      ≡ sum_of line_total (select (λ i. i.order == id) items) + line_total new
one_line id new [] h = rw h (omega arith)
one_line id new (i ∷ is) h = ground (arith, one_line id new is h)

no_line :
    (id : ℕ) (new : OrderItem) (items : List OrderItem)
    → (new.order == id) ≡ false
    → sum_of line_total (select (λ i. i.order == id) (items ++ new ∷ []))
      ≡ sum_of line_total (select (λ i. i.order == id) items)
no_line id new [] h = rw h refl
no_line id new (i ∷ is) h = ground (arith, no_line id new is h)

pub line_settled :
    (new : OrderItem) (items : List OrderItem) (orders : List Order)
    → All (λ (o : Order). (o.id == new.order) ≡ false → o.total ≡ charged items o) orders
    → All
        (λ (o : Order). (o.id == new.order) ≡ false → o.total ≡ charged (items ++ new ∷ []) o)
        orders
line_settled new items [] h = tt
line_settled new items (o ∷ os) h =
    ((λ e. h.0 e ∙ sym (no_line o.id new items (ground (arith, e)))), line_settled new items os h.1)

pub line_owned :
    (orders : List Order) (new : OrderItem) (items : List OrderItem)
    → All (λ (i : OrderItem). exists (λ (o : Order). o.id == i.order) orders ≡ true) items
    → exists (λ (o : Order). o.id == new.order) orders ≡ true
    → All
        (λ (i : OrderItem). exists (λ (o : Order). o.id == i.order) orders ≡ true)
        (items ++ new ∷ [])
line_owned orders new [] h k = (k, tt)
line_owned orders new (i ∷ is) h k = (h.0, line_owned orders new is h.1 k)

pub total_settled :
    (id t : ℕ) (items : List OrderItem) (orders : List Order)
    → All (λ (o : Order). (o.id == id) ≡ false → o.total ≡ charged items o) orders
    → sum_of line_total (select (λ i. i.order == id) items) ≡ t
    → All
        (λ (o : Order). o.total ≡ charged items o)
        (modify (λ o. o.id == id) (λ o. record o { total = t }) orders)
total_settled id t items [] h s = tt
total_settled id t items (o ∷ os) h s = (
  elim (Bool-cases (o.id == id)) [
    | inl e ↦ let same : o.id ≡ id = ground arith in rw (e, same) (sym s)
    | inr e ↦ rw e (h.0 e)
  ],
  total_settled id t items os h.1 s,
)
