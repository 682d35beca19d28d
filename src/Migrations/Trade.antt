-- ===== src/Migrations/Trade.antt =====
-- The migrations of src/apps/orders, src/apps/favorites and src/apps/push.
use boutique_backend.Prelude.{List, [], ◌∷◌}
use boutique_backend.Migrations.{
  Operation, create_model, add_constraint, column, primary_key_column, null_column, uuid_field,
  char_field, url_field, text_field, json_field, positive_integer_field, date_time_field,
  foreign_key, cascade, protect, set_null, user_model,
}

abbrev pub orders_0001 : List Operation
orders_0001 =
    create_model "Order" "orders"
      (("id", (primary_key_column (uuid_field)))
        ∷ ("status", (column (char_field 10)))
        ∷ ("contact_name", (column (char_field 255)))
        ∷ ("phone", (column (char_field 20)))
        ∷ ("delivery_address", (column (text_field)))
        ∷ ("note", (column (text_field)))
        ∷ ("total", (column (positive_integer_field)))
        ∷ ("idempotency_key", (column (char_field 255)))
        ∷ ("created_at", (column (date_time_field)))
        ∷ ("updated_at", (column (date_time_field)))
        ∷ ("customer", (column (foreign_key user_model protect)))
        ∷ ("store", (column (foreign_key "boutiques.boutique" protect)))
        ∷ [])
      ([])
    ∷ create_model "OrderItem" "order_items"
        (("id", (primary_key_column (uuid_field)))
          ∷ ("quantity", (column (positive_integer_field)))
          ∷ ("unit_price", (column (positive_integer_field)))
          ∷ ("name_snapshot", (column (char_field 255)))
          ∷ ("image_url_snapshot", (column (url_field 500)))
          ∷ ("options", (column (json_field)))
          ∷ ("order", (column (foreign_key "orders.order" cascade)))
          ∷ ("product", (null_column (foreign_key "products.product" set_null)))
          ∷ ("store", (column (foreign_key "boutiques.boutique" cascade)))
          ∷ [])
        ([])
    ∷ add_constraint "order" (record {
      name = "uniq_order_idempotency";
      fields = "store" ∷ "customer" ∷ "idempotency_key" ∷ [];
    })
    ∷ []

abbrev pub favorites_0001 : List Operation
favorites_0001 =
    create_model "Favorite" "favorites"
      (("id", (primary_key_column (uuid_field)))
        ∷ ("created_at", (column (date_time_field)))
        ∷ ("customer", (column (foreign_key user_model cascade)))
        ∷ ("product", (column (foreign_key "products.product" cascade)))
        ∷ ("store", (column (foreign_key "boutiques.boutique" cascade)))
        ∷ [])
      ((record { name = "uniq_favorite"; fields = "customer" ∷ "store" ∷ "product" ∷ [] }) ∷ [])
    ∷ []

abbrev pub push_0001 : List Operation
push_0001 =
    create_model "PushSubscription" "push_subscriptions"
      (("id", (primary_key_column (uuid_field)))
        ∷ ("endpoint", (column (url_field 500)))
        ∷ ("p256dh", (column (char_field 255)))
        ∷ ("auth", (column (char_field 255)))
        ∷ ("created_at", (column (date_time_field)))
        ∷ ("store", (column (foreign_key "boutiques.boutique" cascade)))
        ∷ ("user", (column (foreign_key user_model cascade)))
        ∷ [])
      ((record { name = "uniq_push_subscription"; fields = "store" ∷ "endpoint" ∷ [] }) ∷ [])
    ∷ []
