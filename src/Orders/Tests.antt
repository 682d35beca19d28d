-- ===== src/Orders/Tests.antt =====
-- Runs of the order services, and the theorems at concrete inputs.
use boutique_backend.Prelude.{
  ℕ, ◌≡◌, ◌↔◌, refl, true, false, none, some, [], ◌∷◌, arith, ◌⊎◌, modify, ◌==◌, ℕ_eq,
}
use boutique_backend.Prelude.Members.{In}
use boutique_backend.Orders.Selectors.{inbox}
use boutique_backend.Orders.Inbox.{HasStatus, IsAfter, orders_of, inbox_iff}
use boutique_backend.Models.{Db, confirmed}
use boutique_backend.Api.{
  ok, err, push_error, positive_integer, varchar, get_object, get_object_or_404,
}
use boutique_backend.Samples.{bag, placed, after, runtime, gateway, zita, customer, shop, opening}
use boutique_backend.Orders.{
  place_order, find_order, set_status, existing_order, submit_order, build_order, create_order,
  add_lines, add_line, save_total, visible_product, resolve_options, chosen_options, snapshot_from,
  cover_url,
}
use boutique_backend.Orders.Quote.{columns_fit, expected, IsFresh}
use boutique_backend.Orders.Placement.{place_order-expected}
use boutique_backend.Orders.Progress.{moved, set_status_lem}
use boutique_backend.Orders.Totals.{IsPriced}
use boutique_backend.Orders.Keys.{place_order_race}

-- The services, opened for a run.
program : Unit {0}
unfolding place_order existing_order submit_order build_order create_order add_lines add_line
    save_total visible_product resolve_options chosen_options snapshot_from cover_url
    positive_integer varchar get_object get_object_or_404
program = tt

-- test_place_order_prices_from_the_server_and_snapshots_options
run-place_order :
    place_order runtime (λ db. db) zita customer bag opening ≡ (ok (placed, true), after)
unfolding program
run-place_order = refl

shop-IsFresh : IsFresh runtime 0 shop
shop-IsFresh = record {
  injective = λ a b h. omega arith;
  orders = λ k h. refl;
  items = λ k h. refl;
}

shop-IsPriced : IsPriced shop
shop-IsPriced = record { totals = tt; owned = tt }

place_order-expected_example :
    ((place_order runtime (λ db. db) zita customer bag opening).0
      ≡ (expected runtime zita customer bag 0 shop).0)
    × ((place_order runtime (λ db. db) zita customer bag opening).1.db
        ≡ (expected runtime zita customer bag 0 shop).1)
place_order-expected_example = place_order-expected runtime zita customer bag opening shop-IsFresh

-- The winner of a race commits `placed` while the loser is between its check and its INSERT.
abbrev winner : Db → Db
winner _ = after.db

place_order_race_example :
    ((place_order runtime winner zita customer bag opening).0 ≡ ok (placed, false))
    × ((place_order runtime winner zita customer bag opening).1.db ≡ after.db)
unfolding program columns_fit
place_order_race_example =
    place_order_race runtime zita customer bag winner opening placed refl refl refl (refl, tt) refl

inbox_iff_example : In placed (orders_of (inbox zita (some 50) (some 2000) none after.db)) ↔ (
    In placed after.db.orders
    × (◌≡◌ {A = ℕ} 1 1)
    × HasStatus none placed
    × IsAfter (some 50) (some 2000) placed)
inbox_iff_example = inbox_iff zita (some 50) (some 2000) none after.db placed

run-find_order : find_order zita 1000 after.db ≡ ok placed
unfolding program find_order
run-find_order = refl

set_status_lem_example :
    ((set_status runtime gateway zita 1000 confirmed after).1.db.orders
      ≡ modify (λ o. o.id == 1000) (moved confirmed 52) (placed ∷ []))
    × (((set_status runtime gateway zita 1000 confirmed after).0 ≡ ok (moved confirmed 52 placed))
        ⊎ ((set_status runtime gateway zita 1000 confirmed after).0 ≡ err push_error))
set_status_lem_example =
    set_status_lem runtime gateway zita 1000 confirmed after placed run-find_order
