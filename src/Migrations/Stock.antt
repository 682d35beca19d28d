-- ===== src/Migrations/Stock.antt =====
-- The migration of src/apps/products.
use boutique_backend.Prelude.{List, [], ◌∷◌}
use boutique_backend.Migrations.{
  Operation, create_model, add_constraint, column, primary_key_column, null_column, uuid_field,
  char_field, slug_field, url_field, text_field, boolean_field, positive_integer_field,
  date_time_field, foreign_key, cascade, protect, set_null,
}

abbrev pub products_0001 : List Operation
products_0001 =
    create_model "Category" "categories"
      (("id", (primary_key_column (uuid_field)))
        ∷ ("name", (column (char_field 255)))
        ∷ ("slug", (column (slug_field 255)))
        ∷ ("position", (column (positive_integer_field)))
        ∷ ("created_at", (column (date_time_field)))
        ∷ ("store", (column (foreign_key "boutiques.boutique" cascade)))
        ∷ [])
      ([])
    ∷ create_model "Product" "products"
        (("id", (primary_key_column (uuid_field)))
          ∷ ("name", (column (char_field 255)))
          ∷ ("slug", (column (slug_field 255)))
          ∷ ("description", (column (text_field)))
          ∷ ("price", (column (positive_integer_field)))
          ∷ ("is_visible", (column (boolean_field)))
          ∷ ("is_featured", (column (boolean_field)))
          ∷ ("created_at", (column (date_time_field)))
          ∷ ("updated_at", (column (date_time_field)))
          ∷ ("category", (column (foreign_key "products.category" protect)))
          ∷ ("store", (column (foreign_key "boutiques.boutique" cascade)))
          ∷ [])
        ([])
    ∷ create_model "ProductImage" "product_images"
        (("id", (primary_key_column (uuid_field)))
          ∷ ("url", (column (url_field 500)))
          ∷ ("alt", (column (char_field 255)))
          ∷ ("position", (column (positive_integer_field)))
          ∷ ("product", (column (foreign_key "products.product" cascade)))
          ∷ ("store", (column (foreign_key "boutiques.boutique" cascade)))
          ∷ [])
        ([])
    ∷ create_model "VariantGroup" "variant_groups"
        (("id", (primary_key_column (uuid_field)))
          ∷ ("name", (column (char_field 100)))
          ∷ ("position", (column (positive_integer_field)))
          ∷ ("product", (column (foreign_key "products.product" cascade)))
          ∷ ("store", (column (foreign_key "boutiques.boutique" cascade)))
          ∷ [])
        ([])
    ∷ create_model "VariantOption" "variant_options"
        (("id", (primary_key_column (uuid_field)))
          ∷ ("value", (column (char_field 100)))
          ∷ ("hex", (column (char_field 7)))
          ∷ ("position", (column (positive_integer_field)))
          ∷ ("group", (column (foreign_key "products.variantgroup" cascade)))
          ∷ ("image", (null_column (foreign_key "products.productimage" set_null)))
          ∷ ("store", (column (foreign_key "boutiques.boutique" cascade)))
          ∷ [])
        ([])
    ∷ add_constraint "category"
        (record { name = "uniq_category_store_slug"; fields = "store" ∷ "slug" ∷ [] })
    ∷ add_constraint "product"
        (record { name = "uniq_product_store_slug"; fields = "store" ∷ "slug" ∷ [] })
    ∷ add_constraint "variantgroup"
        (record { name = "uniq_variant_group_product_name"; fields = "product" ∷ "name" ∷ [] })
    ∷ add_constraint "variantoption"
        (record { name = "uniq_variant_option_group_value"; fields = "group" ∷ "value" ∷ [] })
    ∷ []
