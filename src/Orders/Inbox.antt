-- ===== src/Orders/Inbox.antt =====
-- The seller's inbox: which orders it shows, in which order, and what polling with a cursor gives.
use boutique_backend.Prelude.{
  ◌⊎◌, inl, inr, Bool-cases, ltb, ℕ, ◌<◌, ◌≡◌, ◌↔◌, refl, ap, nat_eq_iff, false, true, Option, some,
  none, List, [], ◌∷◌, map, select, ◌==◌, ℕ_eq, arith,
}
use boutique_backend.Prelude.Members.{In, In-select, In-order_by, IsSorted, order_by-IsSorted}
use boutique_backend.Models.{Boutique, Db, Order, Status, new, confirmed, fulfilled, cancelled}
use boutique_backend.Orders.Selectors.{
  newer, with_count, same_status, has_status, after_cursor, inbox,
}

-- The orders of a list of rows, without their counts.
abbrev pub orders_of : List (Order × ℕ) → List Order
orders_of = map (λ r. r.0)

orders_of-with_count : (db : Db) (os : List Order) → orders_of (map (with_count db) os) ≡ os
orders_of-with_count db [] = refl
orders_of-with_count db (o ∷ os) = ap (◌∷◌ o) (orders_of-with_count db os)

-- The order has the status that is asked for, if one is.
abbrev pub HasStatus : Option Status → Order → Type 0
HasStatus none o = Unit
HasStatus (some status) o = o.status ≡ status

-- The order is later than the cursor: by its date, and at the very date of a cursor with an id, by its id.
abbrev pub IsAfter : Option ℕ → Option ℕ → Order → Type 0
IsAfter none since_id o = Unit
IsAfter (some since) none o = since < o.created_at
IsAfter (some since) (some since_id) o =
    (since < o.created_at) ⊎ ((o.created_at ≡ since) × (since_id < o.id))

same_status_iff : (a b : Status) → (same_status a b ≡ true) ↔ (a ≡ b)
same_status_iff a b = (told a b, λ e. rw e (same b))
  where
    told : (a b : Status) → same_status a b ≡ true → a ≡ b
    told new new h = refl
    told new confirmed h = absurd (ground arith)
    told new fulfilled h = absurd (ground arith)
    told new cancelled h = absurd (ground arith)
    told confirmed new h = absurd (ground arith)
    told confirmed confirmed h = refl
    told confirmed fulfilled h = absurd (ground arith)
    told confirmed cancelled h = absurd (ground arith)
    told fulfilled new h = absurd (ground arith)
    told fulfilled confirmed h = absurd (ground arith)
    told fulfilled fulfilled h = refl
    told fulfilled cancelled h = absurd (ground arith)
    told cancelled new h = absurd (ground arith)
    told cancelled confirmed h = absurd (ground arith)
    told cancelled fulfilled h = absurd (ground arith)
    told cancelled cancelled h = refl

    same : (a : Status) → same_status a a ≡ true
    same new = refl
    same confirmed = refl
    same fulfilled = refl
    same cancelled = refl

has_status_iff :
    (status : Option Status) (o : Order) → (has_status status o ≡ true) ↔ HasStatus status o
has_status_iff none o = (λ h. tt, λ h. refl)
has_status_iff (some status) o = same_status_iff o.status status

after_cursor_iff :
    (since since_id : Option ℕ) (o : Order)
    → (after_cursor since since_id o ≡ true) ↔ IsAfter since since_id o
after_cursor_iff none since_id o = (λ h. tt, λ h. refl)
after_cursor_iff (some since) none o = (λ h. ground (arith, h), λ h. ground (arith, h))
after_cursor_iff (some since) (some since_id) o = (
  λ h. elim (Bool-cases (ltb since o.created_at)) [
    | inl later ↦ inl (ground (arith, later))
    | inr e ↦ inr (ground (arith, h, e), ground (arith, h, e))
  ],
  λ h. elim h [ inl later ↦ ground (arith, later) | inr (tie, more) ↦ ground (arith, tie, more) ],
)

-- The inbox shows an order exactly if it is stored, belongs to the store, has the status that is asked
-- for, and is later than the cursor: created after `since`, or, where a `since_id` is given too, created
-- at `since` with a larger id. What is not given asks for nothing.
pub inbox_iff :
    (store : Boutique) (since since_id : Option ℕ) (status : Option Status) (db : Db) (o : Order)
    → In o (orders_of (inbox store since since_id status db))
      ↔ (In o db.orders × (o.store ≡ store.id) × HasStatus status o × IsAfter since since_id o)
unfolding inbox
inbox_iff store since since_id status db o =
    let own = select (λ r. r.store == store.id) db.orders in
    let wanted = select (has_status status) own in
    let late = select (after_cursor since since_id) wanted in
    let asked = has_status_iff status o in
    let after = after_cursor_iff since since_id o in
    rw orders_of-with_count (
      λ h.
          let l =
            (In-select (after_cursor since since_id) o wanted).0 ((In-order_by newer o late).0 h) in
          let w = (In-select (has_status status) o own).0 l.0 in
          let s = (In-select (λ r. r.store == store.id) o db.orders).0 w.0 in
          (s.0, (nat_eq_iff o.store store.id).0 s.1, asked.0 w.1, after.0 l.1),
      λ h. (In-order_by newer o late).1 (
          (In-select (after_cursor since since_id) o wanted).1 (
            (In-select (has_status status) o own).1 (
              (In-select (λ r. r.store == store.id) o db.orders).1
                  (h.0, (nat_eq_iff o.store store.id).1 h.1),
              asked.1 h.2,
            ),
            after.1 h.3,
          )),
    )

newer_asymm : (x y : Order) → newer y x ≡ true → newer x y ≡ false
newer_asymm x y h = ground arith

newer_chained : (x y z : Order) → newer y x ≡ false → newer z y ≡ false → newer z x ≡ false
newer_chained x y z h k = ground arith

-- The inbox is newest first.
pub inbox-IsSorted :
    (store : Boutique) (since since_id : Option ℕ) (status : Option Status) (db : Db)
    → IsSorted newer (orders_of (inbox store since since_id status db))
unfolding inbox
inbox-IsSorted store since since_id status db = rw orders_of-with_count (
    order_by-IsSorted newer newer_asymm newer_chained (
      select (after_cursor since since_id)
        (select (has_status status) (select (λ o. o.store == store.id) db.orders))))
