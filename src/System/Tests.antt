-- ===== src/System/Tests.antt =====
-- Courses of the sample shop, and the theorems at them.
use boutique_backend.Prelude.{
  ◌==◌, string_eq, ℕ, ◌≡◌, refl, false, true, exists, All, sum_of, ℕ_eq, some, [], ◌∷◌,
}
use boutique_backend.Prelude.Int.{pos}
use boutique_backend.Models.{Db, Order}
use boutique_backend.Api.{ok, World, positive_integer, varchar, get_object, get_object_or_404}
use boutique_backend.Samples.{
  runtime, gateway, zita, customer, seller, shop, opening, bag, placed, after, auth, ascii,
}
use boutique_backend.Orders.{
  place_order, existing_order, submit_order, build_order, create_order, add_lines, add_line,
  save_total, visible_product, resolve_options, chosen_options, cover_url,
}
use boutique_backend.Orders.Schemas.{RawOrder, read_order}
use boutique_backend.Orders.Seal.{is_row, AreKept, lines_of_order}
use boutique_backend.System.{
  Outside, placing, favoring, deleting_product, serve, Run, Deletes, idle, served, later,
}
use boutique_backend.System.Soundness.{IsSound, Run-IsSound}
use boutique_backend.System.Retries.{place_order_retry}
use boutique_backend.Tenancy.{find_store, authenticate}
use boutique_backend.Orders.Selectors.{customer_order}
use boutique_backend.Orders.Requests.{place, my_order}
use boutique_backend.Orders.Views.{OrderLine, order_view}
use boutique_backend.System.Receipts.{price_of, my_order_lem}
use boutique_backend.System.Permanence.{Run-IsSealed}

abbrev outside : Outside
outside = record {
  runtime = runtime;
  gateway = gateway;
  auth = auth;
  slugify = λ name. "gown";
  read_email = λ e. some e;
  classes = ascii;
  collation = record { iexact = λ a b. a == b; icontains = λ a b. a == b };
  collates_before = λ a b. false;
  is_space = ascii.is_space;
  storage = record { suffix = λ name. ""; hex = λ n. "0"; url = λ image. image };
}

abbrev nobody : ℕ → Db → Db
nobody k db = db

abbrev raw_bag : RawOrder
raw_bag = record {
  idempotency_key = "k1";
  contact_name = "Aline";
  phone = "+250788112233";
  delivery_address = "Kigali, KG 11 Ave";
  note = "";
  items = record { product_id = 40; option_ids = 70 ∷ 71 ∷ []; quantity = pos 2 } ∷ [];
}

-- A customer orders, then puts the product on her list.
abbrev ordered : World
ordered = (serve outside nobody (placing (some customer) "zita" raw_bag) opening).1

abbrev listed : World
listed = (serve outside nobody (favoring (some customer) "zita" 40) ordered).1

busy_day : Run outside shop listed.db
busy_day =
    later (served nobody (λ k db. idle) (placing (some customer) "zita" raw_bag) opening)
      (served nobody (λ k db. idle) (favoring (some customer) "zita" 40) ordered)

shop-IsSound : IsSound shop
shop-IsSound = record {
  tenants = ((refl, (refl, tt)), (refl, (refl, tt)));
  addresses = tt;
  items = tt;
  keys = tt;
  priced = record { totals = tt; owned = tt };
  endpoints = tt;
  favorites = tt;
  catalog = record {
    categories = (refl, tt);
    products = (refl, (refl, tt));
    images = (refl, tt);
    groups = (refl, (refl, tt));
    options = (refl, (refl, tt));
  };
  users = (refl, (refl, (refl, tt)));
}

Run-IsSound_example : IsSound listed.db
Run-IsSound_example = Run-IsSound outside shop listed.db busy_day shop-IsSound

-- The shop after the order, and after the owner deleted the product.
abbrev sold_out : World
sold_out = (serve outside nobody (deleting_product (some seller) "zita" 40) after).1

abbrev sale : Run outside after.db sold_out.db
sale = served nobody (λ k db. idle) (deleting_product (some seller) "zita" 40) after

Run-IsSealed_example :
    (exists (is_row 1000 60000) sold_out.db.orders ≡ true)
    × AreKept (Deletes sale) (lines_of_order 1000 after.db) (lines_of_order 1000 sold_out.db)
Run-IsSealed_example = Run-IsSealed outside 1000 60000 after.db sold_out.db sale refl

first_answer : (place_order runtime (λ db. db) zita customer bag opening).0 ≡ ok (placed, true)
unfolding place_order existing_order submit_order build_order create_order add_lines add_line
    save_total visible_product resolve_options chosen_options cover_url positive_integer varchar
    get_object get_object_or_404
first_answer = refl

abbrev bought : World
bought = (place_order runtime (λ db. db) zita customer bag opening).1

abbrev much_later : World
much_later = (serve outside nobody (favoring (some customer) "zita" 40) bought).1

place_order_retry_example :
    (again : Order) × ((place_order runtime
          (λ db. db)
          zita
          customer
          (record bag { items = [] })
          much_later
        ≡ (ok (again, false), much_later))
      × (again.id ≡ 1000))
place_order_retry_example =
    place_order_retry outside zita customer bag (record bag { items = [] }) (λ db. db) (λ db. db)
      opening much_later placed true refl tt (λ db. idle) first_answer
      (served nobody (λ k db. idle) (favoring (some customer) "zita" 40) bought)

run-my_order : (my_order (some customer) "zita" 1000 ordered).0 ≡ ok placed
unfolding my_order customer_order find_store authenticate serve place read_order place_order
    existing_order submit_order build_order create_order add_lines add_line save_total
    visible_product resolve_options chosen_options cover_url positive_integer varchar get_object
    get_object_or_404
run-my_order = refl

my_order_lem_example :
    let view = order_view ordered.db placed in
    (placed.customer ≡ customer.id)
    × (view.id ≡ 1000)
    × All (λ (l : OrderLine). l.line_total ≡ price_of l) view.items
    × (view.total ≡ sum_of price_of view.items)
my_order_lem_example =
    my_order_lem outside shop ordered customer "zita" 1000 placed shop-IsSound
      (served nobody (λ k db. idle) (placing (some customer) "zita" raw_bag) opening) run-my_order
