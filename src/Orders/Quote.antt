-- ===== src/Orders/Quote.antt =====
-- What an order should come to, as a function of the catalog alone: the lines that `place_order` is
-- to write, and the order that it is to return.
use boutique_backend.Prelude.{
  ℕ, ◌+◌, ◌*◌, ◌≤◌, ◌≡◌, false, true, String, List, [], ◌∷◌, ◌++◌, Bool, some, none, is_empty,
  exists, sum_of, ◌==◌, ℕ_eq, if◌then◌else◌,
}
use boutique_backend.Prelude.Dict.{Dict}
use boutique_backend.Prelude.Int.{pos}
use boutique_backend.Models.{Boutique, User, Product, Catalog, Db, Order, OrderItem, new}
use boutique_backend.Api.{http, Result, ok, err, Runtime, and_then, positive_integer, varchar}
use boutique_backend.Orders.{
  visible_product, resolve_options, cover_url, order_item, existing_order,
}
use boutique_backend.Orders.Schemas.{OrderItemIn, OrderCreate}

pub record Line : Type 0 where
  pub product : Product
  pub url : String
  pub options : Dict String
  pub quantity : ℕ

abbrev pub line_price : Line → ℕ
line_price l = l.product.price * l.quantity

unfoldable pub line_of : Catalog → Boutique → OrderItemIn → Result Line
line_of c store item = and_then (visible_product c store item.product_id) λ product.
    and_then (resolve_options c product item.option_ids) λ options.
      and_then (positive_integer (pos item.quantity)) λ quantity. ok (record {
        product = product;
        url = cover_url c product;
        options = options;
        quantity = item.quantity;
      })

unfoldable pub lines_of : Catalog → Boutique → List OrderItemIn → Result (List Line)
lines_of c store [] = ok []
lines_of c store (item ∷ items) =
    and_then (line_of c store item) λ l. and_then (lines_of c store items) λ ls. ok (l ∷ ls)

-- Whether the texts of the order fit their columns.
unfoldable pub columns_fit : OrderCreate → Result (Unit {0})
columns_fit payload = and_then (varchar 255 payload.idempotency_key) λ _.
    and_then (varchar 255 payload.contact_name) λ _. and_then (varchar 20 payload.phone) λ _. ok tt

-- The lines of the order, or the first complaint: about a text that is too long for its column, about
-- a line, or about the total.
unfoldable pub quote_lines : Catalog → Boutique → OrderCreate → Result (List Line)
quote_lines c store payload = and_then (columns_fit payload) λ _.
    and_then (lines_of c store payload.items)
      λ lines. and_then (positive_integer (pos (sum_of line_price lines))) λ _. ok lines

unfoldable pub quote : Catalog → Boutique → OrderCreate → Result (List Line)
quote c store payload =
    if is_empty payload.items
    then err (http 400 "An order needs at least one item.")
    else quote_lines c store payload

module _ (rt : Runtime) where
  -- The order as it is first inserted, and as it is in the end.
  abbrev pub blank_order : ℕ → Boutique → User → OrderCreate → Order
  blank_order n store customer payload = record {
    id = rt.uuid4 n;
    store = store.id;
    customer = customer.id;
    status = new;
    contact_name = payload.contact_name;
    phone = payload.phone;
    delivery_address = payload.delivery_address;
    note = payload.note;
    total = 0;
    idempotency_key = payload.idempotency_key;
    created_at = rt.now n;
    updated_at = rt.now n;
  }

  abbrev pub priced_order : ℕ → Boutique → User → OrderCreate → List Line → Order
  priced_order n store customer payload lines = record (blank_order n store customer payload) {
    total = sum_of line_price lines;
  }

  -- The rows of the lines, numbered from the n-th draw.
  abbrev pub item_rows : ℕ → Order → Boutique → List Line → List OrderItem
  item_rows n order store [] = []
  item_rows n order store (l ∷ ls) =
      order_item rt n order store l.product l.url l.quantity l.options
      ∷ item_rows (n + 1) order store ls

  -- The result and the database after `place_order`, when nobody interferes.
  unfoldable pub expected : Boutique → User → OrderCreate → ℕ → Db → Result (Order × Bool) × Db
  expected store customer payload n db =
      elim (existing_order store customer payload.idempotency_key db) [
        | some order ↦ (ok (order, false), db)
        | none ↦ elim (quote db.catalog store payload) [
          | err e ↦ (err e, db)
          | ok lines ↦ (
            ok (priced_order n store customer payload lines, true),
            record db {
              orders = db.orders ++ priced_order n store customer payload lines ∷ [];
              items =
                  db.items ++ item_rows (n + 1) (blank_order n store customer payload) store lines;
            },
          )
        ]
      ]

-- No id that is still to be drawn stands in the tables of the orders, and no two draws agree.
pub record IsFresh (rt : Runtime) (n : ℕ) (db : Db) : Type 0 where
  pub injective : (a b : ℕ) → rt.uuid4 a ≡ rt.uuid4 b → a ≡ b
  pub orders : (k : ℕ) → n ≤ k → exists (λ o. o.id == rt.uuid4 k) db.orders ≡ false
  pub items : (k : ℕ) → n ≤ k → exists (λ i. i.id == rt.uuid4 k) db.items ≡ false
