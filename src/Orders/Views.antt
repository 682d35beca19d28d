-- ===== src/Orders/Views.antt =====
-- src/apps/orders/schemas.py: an order as the customer and the seller see it.
use boutique_backend.Prelude.{
  ℕ, ◌+◌, ◌≡◌, ◌∙◌, refl, ap, inl, inr, String, Option, List, [], ◌∷◌, map, select, sum_of, All,
  ◌==◌, ℕ_eq,
}
use boutique_backend.Prelude.Dict.{Dict}
use boutique_backend.Prelude.Members.{In}
use boutique_backend.Models.{Db, Order, OrderItem, Status}
use boutique_backend.Orders.Schemas.{line_total}
use boutique_backend.Orders.Totals.{IsPriced}

-- `OrderLineSchema`
pub record OrderLine : Type 0 where
  pub product_id : Option ℕ
  pub name : String
  pub unit_price : ℕ
  pub quantity : ℕ
  pub options : Dict String
  pub image_url : String
  pub line_total : ℕ

unfoldable pub order_line : OrderItem → OrderLine
order_line i = record {
  product_id = i.product;
  name = i.name_snapshot;
  unit_price = i.unit_price;
  quantity = i.quantity;
  options = i.options;
  image_url = i.image_url_snapshot;
  line_total = line_total i;
}

-- `OrderSchema`
pub record OrderView : Type 0 where
  pub id : ℕ
  pub status : Status
  pub contact_name : String
  pub phone : String
  pub delivery_address : String
  pub note : String
  pub total : ℕ
  pub created_at : ℕ
  pub items : List OrderLine

unfoldable pub order_view : Db → Order → OrderView
order_view db o = record {
  id = o.id;
  status = o.status;
  contact_name = o.contact_name;
  phone = o.phone;
  delivery_address = o.delivery_address;
  note = o.note;
  total = o.total;
  created_at = o.created_at;
  items = map order_line (select (λ i. i.order == o.id) db.items);
}

-- `OrderListItemSchema`
pub record OrderListItem : Type 0 where
  pub id : ℕ
  pub status : Status
  pub contact_name : String
  pub total : ℕ
  pub item_count : ℕ
  pub created_at : ℕ

unfoldable pub order_list_item : Order × ℕ → OrderListItem
order_list_item (o, count) = record {
  id = o.id;
  status = o.status;
  contact_name = o.contact_name;
  total = o.total;
  item_count = count;
  created_at = o.created_at;
}

sum_of-lines :
    (items : List OrderItem)
    → sum_of (λ (i : OrderItem). line_total i) items
      ≡ sum_of (λ (l : OrderLine). l.line_total) (map order_line items)
unfolding order_line
sum_of-lines [] = refl
sum_of-lines (i ∷ is) = ap (λ n. line_total i + n) (sum_of-lines is)

total_of_In :
    (db : Db) (o : Order) (orders : List Order)
    → All
        (λ (p : Order). p.total ≡ sum_of line_total (select (λ i. i.order == p.id) db.items))
        orders
    → In o orders
    → o.total ≡ sum_of line_total (select (λ i. i.order == o.id) db.items)
total_of_In db o [] h i = absurd i
total_of_In db o (p ∷ ps) h (inl e) = rw e h.0
total_of_In db o (p ∷ ps) h (inr j) = total_of_In db o ps h.1 j

-- The total that a client is shown, over the lines that he is shown with it.
pub order_view_lem :
    (db : Db) (o : Order)
    → IsPriced db
    → In o db.orders
    → (order_view db o).total ≡ sum_of (λ (l : OrderLine). l.line_total) (order_view db o).items
unfolding order_view
order_view_lem db o priced stored =
    total_of_In db o db.orders priced.totals stored
    ∙ sum_of-lines (select (λ i. i.order == o.id) db.items)
