-- ===== src/Orders/Held.antt =====
-- An order that `place_order` returned: it stands in the table under its key, and no service takes it
-- away.
use boutique_backend.Prelude.{
  ℕ, ◌≡◌, refl, ◌∙◌, String, Bool, true, false, ◌&&◌, Option, none, some, List, [], ◌∷◌, exists,
  modify, select, is_empty, head?, ltb, inl, inr, Bool-cases, ◌==◌, ℕ_eq, string_eq, arith,
  beq_refl,
}
use boutique_backend.Prelude.Int.{pos}
use boutique_backend.Prelude.Sorting.{order_by}
use boutique_backend.Prelude.Members.{In, In-select, In-order_by, exists_of_In, select_of_In}
use boutique_backend.Prelude.Constraints.{exists-append_left, exists-append_right, exists-modify}
use boutique_backend.Models.{Boutique, User, Order, Db, Status}
use boutique_backend.Api.{
  http, ok, Action, Runtime, World, atomic, reads, pure, raise, modify_db, ◌>>◌, varchar,
  positive_integer, get_object,
}
use boutique_backend.Api.Keeps.{Keeps}
use boutique_backend.Api.Returns.{Returns, Returns-raise, Returns-if, Returns-atomic}
use boutique_backend.Api.Leads.{
  Leads, Leads-pure, Leads-bind, Leads-guard, Leads-drawn, Leads_of_Keeps, Returns-of_Leads,
  Returns-then,
}
use boutique_backend.Orders.{
  clash_order, has_key, insert_order, existing_order, create_order, add_lines, write_total,
  save_total, build_order, submit_order, place_order,
}
use boutique_backend.Orders.Schemas.{OrderCreate}
use boutique_backend.Orders.Quote.{blank_order}
use boutique_backend.Orders.Frame.{insert_item-Keeps, add_lines-Keeps}
use boutique_backend.Orders.Keys.{KeysAreUnique, clash_of_keys}
use boutique_backend.Orders.Recovery.{Returns-on_integrity_error}

module _ (store : Boutique) (customer : User) (key : String) where
  -- The row of an id, under the key.
  abbrev pub is_held : ℕ → Order → Bool
  is_held id o = has_key store customer key o && o.id == id

  abbrev pub IsHeld : ℕ → Db → Type 0
  IsHeld id db = exists (is_held id) db.orders ≡ true

  pub insert_order-IsHeld : (id : ℕ) (o : Order) → Keeps (IsHeld id) (insert_order o)
  unfolding insert_order
  insert_order-IsHeld id o = record {
    at = λ w h. elim (Bool-cases (exists (clash_order o) w.db.orders)) [
      | inl hit ↦ rw hit h
      | inr fresh ↦ rw fresh (exists-append_left (is_held id) w.db.orders (o ∷ []) h)
    ];
  }

  pub update_total-IsHeld :
      (id row total : ℕ) (db : Db)
      → IsHeld id db
      → IsHeld id (record db {
        orders = modify (λ o. o.id == row) (λ o. record o { total = total }) db.orders;
      })
  update_total-IsHeld id row total db h =
      exists-modify (is_held id) (λ o. o.id == row) (λ o. record o { total = total }) (λ o. refl)
        db.orders
      ∙ h

  pub update_status-IsHeld :
      (id row : ℕ) (status : Status) (now : ℕ) (db : Db)
      → IsHeld id db
      → IsHeld id (record db {
        orders =
            modify
              (λ o. o.id == row)
              (λ o. record o { status = status; updated_at = now })
              db.orders;
      })
  update_status-IsHeld id row status now db h =
      exists-modify (is_held id) (λ o. o.id == row)
        (λ o. record o { status = status; updated_at = now }) (λ o. refl) db.orders
      ∙ h

  pub row_of_IsHeld :
      (id : ℕ) (orders : List Order)
      → exists (is_held id) orders ≡ true
      → (o : Order) × (In o orders × (is_held id o ≡ true))
  row_of_IsHeld id [] h = absurd (ground arith)
  row_of_IsHeld id (o ∷ os) h = elim (Bool-cases (is_held id o)) [
    | inl e ↦ (o, (inl refl, e))
    | inr e ↦ let (p, (i, k)) = row_of_IsHeld id os (rw e at h) in (p, (inr i, k))
  ]

  -- The fast-path check finds a held order again.
  pub existing_order_of_IsHeld :
      (id : ℕ) (db : Db)
      → KeysAreUnique db
      → IsHeld id db
      → (o : Order) × ((existing_order store customer key db ≡ some o) × (o.id ≡ id))
  unfolding existing_order
  existing_order_of_IsHeld id db unique h =
      let (o, (row, fits)) = row_of_IsHeld id db.orders h in
      let own : has_key store customer key o ≡ true = ground (arith, fits) in
      let only =
        select_of_In (has_key store customer key) clash_order (clash_of_keys store customer key) o
          db.orders unique row own in
      (o, (rw only refl, ground (arith, fits)))

  IsHeld-of_In :
      (o : Order) (db : Db) → In o db.orders → has_key store customer key o ≡ true → IsHeld o.id db
  IsHeld-of_In o db i own = exists_of_In (is_held o.id) o db.orders i (ground (arith, own))

  existing_order-IsHeld :
      (o : Order) (db : Db) → existing_order store customer key db ≡ some o → IsHeld o.id db
  unfolding existing_order
  existing_order-IsHeld o db h =
      let rows = select (has_key store customer key) db.orders in
      let later = λ (n o : Order). ltb o.created_at n.created_at in
      let (row, own) =
        (In-select (has_key store customer key) o db.orders).0
          ((In-order_by later o rows).0 (head_In (order_by later rows) h)) in
      IsHeld-of_In o db row own
    where
      head_In : (os : List Order) → head? os ≡ some o → In o os
      head_In [] e = absurd (ground arith)
      head_In (p ∷ ps) e = inl (ground arith)

  get_object-IsHeld :
      (o : Order) (db : Db)
      → get_object (has_key store customer key) db.orders ≡ ok o
      → IsHeld o.id db
  unfolding get_object
  get_object-IsHeld o db h =
      let only : select (has_key store customer key) db.orders ≡ o ∷ [] = ground arith in
      let (row, own) =
        (In-select (has_key store customer key) o db.orders).0 (rw only (inl refl)) in
      IsHeld-of_In o db row own

module _ (rt : Runtime) (store : Boutique) (customer : User) (payload : OrderCreate) where
  abbrev Held : Order → Db → Type 0
  Held o = IsHeld store customer payload.idempotency_key o.id

  insert_order-Held :
      (o : Order)
      → has_key store customer payload.idempotency_key o ≡ true
      → Leads (λ db. Unit {0}) (insert_order o) Held
  unfolding insert_order
  insert_order-Held o own = record {
    at = λ w a e h. elim (Bool-cases (exists (clash_order o) w.db.orders)) [
      | inl hit ↦ absurd (ground (arith, (rw hit at e)))
      | inr fresh ↦
          let same : o ≡ a = ground (arith, (rw fresh at e)) in
          rw (← same, fresh)
            (exists-append_right (is_held store customer payload.idempotency_key o.id) w.db.orders
              (o ∷ []) (ground (arith, own)))
    ];
  }

  create_order-Held : Leads (λ db. Unit {0}) (create_order rt store customer payload) Held
  unfolding create_order
  create_order-Held = Leads-drawn _ λ n. Leads-guard (varchar 255 payload.idempotency_key) _ λ _.
      Leads-guard (varchar 255 payload.contact_name) _ λ _.
        Leads-guard (varchar 20 payload.phone) _ λ _.
          insert_order-Held (blank_order rt n store customer payload)
            (ground (arith, beq_refl payload.idempotency_key))

  save_total-Held : (o : Order) (t : ℕ) → Leads (Held o) (save_total o t) Held
  unfolding save_total
  save_total-Held o t = Leads-guard (positive_integer (pos t)) (write_total o) λ n.
      Leads-bind
        (modify_db λ db. record db {
          orders = modify (λ r. r.id == o.id) (λ r. record r { total = n }) db.orders;
        })
        _
        (record {
          at = λ w a e h.
              update_total-IsHeld store customer payload.idempotency_key o.id o.id n w.db h;
        })
        (λ _. Leads-pure (record o { total = n }) (λ db h. h))

  build_order-Held : Returns Held (build_order rt store customer payload)
  unfolding build_order
  build_order-Held = Returns-of_Leads _ (
      Leads-bind (create_order rt store customer payload) _ create_order-Held λ order.
        Leads-bind (add_lines rt order store 0 payload.items) _
          (Leads_of_Keeps (add_lines rt order store 0 payload.items) (
            add_lines-Keeps rt (insert_order-IsHeld store customer payload.idempotency_key order.id)
              (update_total-IsHeld store customer payload.idempotency_key order.id)
              (insert_item-Keeps rt (λ db items h. h)) order store 0 payload.items))
          λ t. save_total-Held order t)

  submit_order-Held : Returns (λ p. Held p.0) (submit_order rt store customer payload)
  unfolding submit_order
  submit_order-Held =
      Returns-if (is_empty payload.items) (raise (http 400 "An order needs at least one item.")) _
        (Returns-raise (http 400 "An order needs at least one item."))
        (Returns-on_integrity_error _ _
          (Returns-then {Q = Held} {R = λ (p : Order × Bool). Held p.0}
            (atomic (build_order rt store customer payload)) (λ order. (order, true))
            (λ order db h. h)
            (Returns-atomic (build_order rt store customer payload) build_order-Held))
          (Returns-then {Q = Held} {R = λ (p : Order × Bool). Held p.0}
            (reads λ db. get_object (has_key store customer payload.idempotency_key) db.orders)
            (λ order. (order, false)) (λ order db h. h)
            (record {
              at = λ w o. get_object-IsHeld store customer payload.idempotency_key o w.db;
            })))

  abbrev found_or_submit : (Db → Db) → Option Order → Action (Order × Bool)
  found_or_submit others found = elim found [
    | some order ↦ pure (order, false)
    | none ↦ modify_db others >> submit_order rt store customer payload
  ]

  found_or_submit-Held :
      (others : Db → Db) (w : World) (found : Option Order)
      → existing_order store customer payload.idempotency_key w.db ≡ found
      → (p : Order × Bool) → (found_or_submit others found w).0 ≡ ok p
      → Held p.0 (found_or_submit others found w).1.db
  found_or_submit-Held others w (some known) found p done =
      let same : known ≡ p.0 = ground (arith, done) in
      rw (← same) (existing_order-IsHeld store customer payload.idempotency_key known w.db found)
  found_or_submit-Held others w none absent p done =
      submit_order-Held.at (record w { db = others w.db }) p done

  -- Whatever other requests commit in between, an order that `place_order` returns, new or not, stands
  -- in the table under the key.
  pub place_order-IsHeld :
      (others : Db → Db) (w : World) (p : Order × Bool)
      → (place_order rt others store customer payload w).0 ≡ ok p
      → IsHeld store customer payload.idempotency_key p.0.id
          (place_order rt others store customer payload w).1.db
  unfolding place_order
  place_order-IsHeld others w =
      found_or_submit-Held others w (existing_order store customer payload.idempotency_key w.db)
        refl

  -- A call that finds the order returns it at once.
  pub place_order_known :
      (others : Db → Db) (w : World) (o : Order)
      → existing_order store customer payload.idempotency_key w.db ≡ some o
      → place_order rt others store customer payload w ≡ (ok (o, false), w)
  unfolding place_order
  place_order_known others w o found = ground arith
