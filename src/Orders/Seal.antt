-- ===== src/Orders/Seal.antt =====
-- What a placed order is: its total and its lines. A deleted product is nulled on a line, and all else of
-- the line is a snapshot.
use boutique_backend.Prelude.{
  ap, ◌⊎◌, some, ℕ, ◌+◌, ◌*◌, ◌≡◌, refl, sym, ◌∙◌, Bool, true, false, ◌&&◌, none, List, [], ◌∷◌,
  exists, select, modify, inl, inr, Bool-cases, ◌==◌, ℕ_eq, string_eq, arith,
}
use boutique_backend.Prelude.Int.{pos}
use boutique_backend.Prelude.Constraints.{
  exists-append_left, exists-modify, exists_of_clash, select-append,
}
use boutique_backend.Models.{Boutique, User, Order, OrderItem, Db, Status}
use boutique_backend.Api.{Runtime, atomic, positive_integer, varchar}
use boutique_backend.Api.Keeps.{Keeps}
use boutique_backend.Api.Leads.{
  Leads, Leads-pure, Leads-bind, Leads-guard, Leads-read, Leads-get, Leads-drawn,
  Keeps-atomic_of_Leads,
}
use boutique_backend.Orders.{
  clash_order, insert_order, insert_item, order_item, visible_product, cover_url, resolve_options,
  create_order, add_line, add_lines, write_total, save_total, build_order,
}
use boutique_backend.Orders.Schemas.{OrderItemIn, OrderCreate}
use boutique_backend.Orders.Quote.{blank_order}
use boutique_backend.Catalog.Writes.{names_product}
use mathlib.Core.List.{append-nil}
use mathlib.Core.Bool.{false≢true}

-- A line as it was snapshotted.
abbrev pub snapshot : OrderItem → OrderItem
snapshot i = record i { product = none }

abbrev pub is_row : ℕ → ℕ → Order → Bool
is_row id total o = o.id == id && o.total == total

-- A line stays as it is, but for the link to a product of D, which may be gone.
abbrev pub IsKept : (ℕ → Type 0) → OrderItem → OrderItem → Type 0
IsKept D before now =
    (now ≡ before) ⊎ ((now ≡ snapshot before) × ((k : ℕ) × ((before.product ≡ some k) × D k)))

-- The lines stay, one by one and in their order.
abbrev pub AreKept : (ℕ → Type 0) → List OrderItem → List OrderItem → Type 0
AreKept D [] [] = Unit
AreKept D [] (y ∷ ys) = ⊥
AreKept D (x ∷ xs) [] = ⊥
AreKept D (x ∷ xs) (y ∷ ys) = IsKept D x y × AreKept D xs ys

-- The lines of an order.
abbrev pub lines_of_order : ℕ → Db → List OrderItem
lines_of_order id db = select (λ i. i.order == id) db.items

-- The order is in the table with this total, and of its lines nothing is gone but links to products of D.
abbrev pub IsSealed : (ℕ → Type 0) → ℕ → ℕ → List OrderItem → Db → Type 0
IsSealed D id total lines db =
    (exists (is_row id total) db.orders ≡ true) × AreKept D lines (lines_of_order id db)

module _ (D : ℕ → Type 0) (id total : ℕ) (lines : List OrderItem) where
  -- The order under way is another one.
  IsApart : ℕ → Db → Type 0
  IsApart new db = IsSealed D id total lines db × ((new == id) ≡ false)

  is_row_id :
      (x : Order)
      → is_row id total x ≡ true
      → (o : Order) → (o.id == id) ≡ true
      → clash_order o x ≡ true
  is_row_id x h o e = ground arith

  apart_of_fresh :
      (o : Order) (orders : List Order)
      → exists (is_row id total) orders ≡ true
      → exists (clash_order o) orders ≡ false
      → (o.id == id) ≡ false
  apart_of_fresh o orders h fresh = elim (Bool-cases (o.id == id)) [
    | inl e ↦ absurd (
        false≢true (
          sym (
            exists_of_clash (is_row id total) clash_order o (λ y k. is_row_id y k o e) orders fresh)
          ∙ h))
    | inr e ↦ e
  ]

  insert_order-IsApart :
      (o : Order) → Leads (IsSealed D id total lines) (insert_order o) (λ new. IsApart new.id)
  unfolding insert_order IsApart
  insert_order-IsApart o = record {
    at = λ w a e h. elim (Bool-cases (exists (clash_order o) w.db.orders)) [
      | inl hit ↦ absurd (ground (arith, (rw hit at e)))
      | inr fresh ↦
          let same : o ≡ a = ground (arith, (rw fresh at e)) in
          rw (← same, fresh)
            (
              (exists-append_left (is_row id total) w.db.orders (o ∷ []) h.0, h.1),
              apart_of_fresh o w.db.orders h.0 fresh,
            )
    ];
  }

  insert_item-IsApart :
      (i : OrderItem) → Leads (IsApart i.order) (insert_item i) (λ _. IsApart i.order)
  unfolding insert_item IsApart
  insert_item-IsApart i = record {
    at = λ w a e h. elim (Bool-cases (exists (λ j. j.id == i.id) w.db.items)) [
      | inl hit ↦ rw hit h
      | inr fresh ↦ rw fresh ((h.0.0, rw (select-append, h.1, append-nil) h.0.1), h.1)
    ];
  }

  other_total :
      (new t : ℕ) (orders : List Order)
      → (new == id) ≡ false
      → exists (is_row id total) (modify (λ o. o.id == new) (λ o. record o { total = t }) orders)
        ≡ exists (is_row id total) orders
  other_total new t [] h = refl
  other_total new t (o ∷ os) h = ground (arith, other_total new t os h)

  save_total-IsSealed :
      (o : Order) (t : ℕ) → Leads (IsApart o.id) (save_total o t) (λ _. IsSealed D id total lines)
  unfolding save_total IsApart
  save_total-IsSealed o t =
      Leads-guard (positive_integer (pos t)) (write_total o)
        λ n. record { at = λ w a e h. (other_total o.id n w.db.orders h.1 ∙ h.0.0, h.0.1) }

  module _ (rt : Runtime) (store : Boutique) where
    add_line-IsApart :
        (order : Order) (item : OrderItemIn)
        → Leads (IsApart order.id) (add_line rt order store item) (λ _. IsApart order.id)
    unfolding add_line
    add_line-IsApart order item =
        Leads-read (λ db. visible_product db.catalog store item.product_id) _
          λ product.
            Leads-get (λ db. cover_url db.catalog product) _
              λ url.
                Leads-read (λ db. resolve_options db.catalog product item.option_ids) _
                  λ options. Leads-drawn _ λ n.
                    Leads-guard (positive_integer (pos item.quantity)) _ λ quantity.
                      Leads-bind
                        (insert_item (order_item rt n order store product url quantity options)) _
                        (insert_item-IsApart
                          (order_item rt n order store product url quantity options))
                        λ _. Leads-pure (product.price * item.quantity) (λ db h. h)

    add_lines-IsApart :
        (order : Order) (t : ℕ) (items : List OrderItemIn)
        → Leads (IsApart order.id) (add_lines rt order store t items) (λ _. IsApart order.id)
    unfolding add_lines
    add_lines-IsApart order t [] = Leads-pure t (λ db h. h)
    add_lines-IsApart order t (item ∷ items) =
        Leads-bind (add_line rt order store item) _ (add_line-IsApart order item)
          λ line. add_lines-IsApart order (t + line) items

    create_order-IsApart :
        (customer : User) (payload : OrderCreate)
        → Leads
            (IsSealed D id total lines)
            (create_order rt store customer payload)
            (λ new. IsApart new.id)
    unfolding create_order
    create_order-IsApart customer payload = Leads-drawn _ λ n.
        Leads-guard (varchar 255 payload.idempotency_key) _ λ _.
          Leads-guard (varchar 255 payload.contact_name) _ λ _.
            Leads-guard (varchar 20 payload.phone) _
              λ _. insert_order-IsApart (blank_order rt n store customer payload)

    pub build_order-IsSealed :
        (customer : User) (payload : OrderCreate)
        → Keeps (IsSealed D id total lines) (atomic (build_order rt store customer payload))
    unfolding build_order
    build_order-IsSealed customer payload = Keeps-atomic_of_Leads _ (
        Leads-bind (create_order rt store customer payload) _
          (create_order-IsApart customer payload)
          λ order.
            Leads-bind (add_lines rt order store 0 payload.items) _
              (add_lines-IsApart order 0 payload.items) λ t. save_total-IsSealed order t)

  pub update_status-IsSealed :
      (row : ℕ) (status : Status) (now : ℕ) (db : Db)
      → IsSealed D id total lines db
      → IsSealed D id total lines (record db {
        orders =
            modify
              (λ o. o.id == row)
              (λ o. record o { status = status; updated_at = now })
              db.orders;
      })
  update_status-IsSealed row status now db h = (
    exists-modify (is_row id total) (λ o. o.id == row)
          (λ o. record o { status = status; updated_at = now }) (λ o. refl) db.orders
        ∙ h.0,
    h.1,
  )

module _ (D : ℕ → Type 0) where
  pub AreKept-refl : (lines : List OrderItem) → AreKept D lines lines
  AreKept-refl [] = tt
  AreKept-refl (i ∷ is) = (inl refl, AreKept-refl is)

  link_of_name :
      (product_id : ℕ) (i : OrderItem)
      → names_product product_id i ≡ true
      → i.product ≡ some product_id
  link_of_name product_id i h = ground (arith, h)

  unlink_one :
      (product_id : ℕ) (i : OrderItem)
      → D product_id
      → names_product product_id i ≡ true
      → (x : OrderItem) → IsKept D x i
      → IsKept D x (snapshot i)
  unlink_one product_id i d named x (inl same) = inr (
    ap snapshot same,
    (
      product_id,
      (ap (λ (r : OrderItem). r.product) (sym same) ∙ link_of_name product_id i named, d),
    ),
  )
  unlink_one product_id i d named x (inr (same, gone)) = inr (ap snapshot same, gone)

  kept_head :
      (i j : OrderItem) (is js : List OrderItem)
      → ((x : OrderItem) → IsKept D x i → IsKept D x j)
      → ((xs : List OrderItem) → AreKept D xs is → AreKept D xs js)
      → (xs : List OrderItem) → AreKept D xs (i ∷ is)
      → AreKept D xs (j ∷ js)
  kept_head i j is js one rest [] h = h
  kept_head i j is js one rest (x ∷ xs) h = (one x h.0, rest xs h.1)

  -- A deletion unlinks the lines that name the product, and does nothing else to a line.
  pub unlink-AreKept :
      (id product_id : ℕ)
      → D product_id
      → (items lines : List OrderItem) → AreKept D lines (select (λ i. i.order == id) items)
      → AreKept D lines
          (select (λ i. i.order == id) (modify (names_product product_id) snapshot items))
  unlink-AreKept id product_id d [] lines h = h
  unlink-AreKept id product_id d (i ∷ is) lines h = elim (Bool-cases (i.order == id)) [
    | inr other ↦ elim (Bool-cases (names_product product_id i)) [
      | inl e ↦ rw (e, other) (unlink-AreKept id product_id d is lines (rw other at h))
      | inr e ↦ rw (e, other) (unlink-AreKept id product_id d is lines (rw other at h))
    ]
    | inl own ↦ elim (Bool-cases (names_product product_id i)) [
      | inl e ↦
          rw (e, own)
            (kept_head i (snapshot i) (select (λ i. i.order == id) is) _
              (unlink_one product_id i d e) (unlink-AreKept id product_id d is) lines (rw own at h))
      | inr e ↦
          rw (e, own)
            (kept_head i i (select (λ i. i.order == id) is) _ (λ x k. k)
              (unlink-AreKept id product_id d is) lines (rw own at h))
    ]
  ]
