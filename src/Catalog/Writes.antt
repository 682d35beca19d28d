-- ===== src/Catalog/Writes.antt =====
-- src/apps/products: changing and deleting a product (services.py and the catalog admin controller).
use boutique_backend.Prelude.{
  ℕ, String, Bool, false, ◌&&◌, Option, none, some, List, reject, modify, exists, ◌==◌, ℕ_eq,
  string_eq,
}
use boutique_backend.Prelude.Int.{ℤ, pos}
use boutique_backend.Models.{
  Boutique, User, Db, Catalog, Product, ProductImage, VariantGroup, VariantOption, OrderItem,
}
use boutique_backend.Api.{
  integrity_error, Result, ok, err, Runtime, Action, pure, lift, reads, ◌>>=◌, ◌>>◌, modify_db,
  draw, and_then, get_object_or_404, positive_integer, varchar,
}
use boutique_backend.Tenancy.{Capability, require_membership, authenticate}

-- `get_object_or_404(Product, store=store, id=product_id)`
unfoldable pub store_product : Boutique → ℕ → Catalog → Result Product
store_product store product_id c =
    get_object_or_404 (λ p. p.store == store.id && p.id == product_id) c.products

-- `ProductUpdateSchema`: a field is unset, or null, or a value. A category that is null is one that
-- is unset, to the service.
pub record ProductUpdate : Type 0 where
  pub category_slug : Option String
  pub name : Option (Option String)
  pub description : Option (Option String)
  pub price : Option (Option ℤ)
  pub is_featured : Option (Option Bool)
  pub is_visible : Option (Option Bool)

-- A field after the `setattr` loop; the columns are NOT NULL.
abbrev pub assigned : {A : Type 0} → Option (Option A) → A → Result A
assigned none old = ok old
assigned (some none) old = err integrity_error
assigned (some (some value)) old = ok value

unfoldable pub new_category : Boutique → Option String → Product → Catalog → Result ℕ
new_category store none product c = ok product.category
new_category store (some slug) product c =
    and_then (get_object_or_404 (λ k. k.store == store.id && k.slug == slug) c.categories)
      λ category. ok category.id

-- `product.save()` writes every column.
unfoldable pub save_product : Product → Action Product
save_product saved = do
  modify_db λ db. record db {
    catalog = record db.catalog {
      products = modify (λ p. p.id == saved.id) (λ p. saved) db.products;
    };
  }
  pure saved

unfoldable pub update_product : Runtime → Boutique → ℕ → ProductUpdate → Action Product
update_product rt store product_id payload = do
  product ← reads (λ db. store_product store product_id db.catalog)
  category ← reads (λ db. new_category store payload.category_slug product db.catalog)
  name ← lift (and_then (assigned payload.name product.name) (varchar 255))
  description ← lift (assigned payload.description product.description)
  price ← lift (and_then (assigned payload.price (pos product.price)) positive_integer)
  is_featured ← lift (assigned payload.is_featured product.is_featured)
  is_visible ← lift (assigned payload.is_visible product.is_visible)
  n ← draw
  save_product (record product {
    category = category;
    name = name;
    description = description;
    price = price;
    is_featured = is_featured;
    is_visible = is_visible;
    updated_at = rt.now n;
  })

abbrev pub is_image_of : ℕ → ProductImage → Bool
is_image_of product_id i = i.product == product_id

abbrev pub is_group_of : ℕ → VariantGroup → Bool
is_group_of product_id g = g.product == product_id

-- An option goes with its group.
abbrev pub is_option_of : List VariantGroup → ℕ → VariantOption → Bool
is_option_of groups product_id o = exists (λ g. g.id == o.group && g.product == product_id) groups

-- An option of another product that shows a photo of this one.
abbrev pub shows_image_of : List ProductImage → ℕ → VariantOption → Bool
shows_image_of images product_id o = elim o.image [
  | none ↦ false
  | some image ↦ exists (λ i. i.id == image && i.product == product_id) images
]

abbrev pub names_product : ℕ → OrderItem → Bool
names_product product_id i = elim i.product [ none ↦ false | some id ↦ id == product_id ]

unfoldable pub catalog_without : ℕ → Catalog → Catalog
catalog_without product_id c = record c {
  products = reject (λ p. p.id == product_id) c.products;
  images = reject (is_image_of product_id) c.images;
  groups = reject (is_group_of product_id) c.groups;
  options =
      modify (shows_image_of c.images product_id) (λ o. record o { image = none })
        (reject (is_option_of c.groups product_id) c.options);
}

-- `product.delete()`: the foreign keys' CASCADE and SET_NULL
unfoldable pub without_product : ℕ → Db → Db
unfolding catalog_without
without_product product_id db = record db {
  catalog = catalog_without product_id db.catalog;
  items = modify (names_product product_id) (λ i. record i { product = none }) db.items;
  favorites = reject (λ f. f.product == product_id) db.favorites;
}

unfoldable pub delete_product : Boutique → ℕ → Action (Unit {0})
delete_product store product_id = do
  product ← reads (λ db. store_product store product_id db.catalog)
  modify_db (without_product product.id)

-- `CatalogAdminController.update_product`
unfoldable pub admin_update_product :
    Runtime → Option User → String → ℕ → ProductUpdate → Action Product
admin_update_product rt auth slug product_id payload = do
  user ← lift (authenticate auth)
  member ← reads (require_membership user slug (some Capability.manage_catalog))
  update_product rt member.1 product_id payload

-- `CatalogAdminController.delete_product`
unfoldable pub admin_delete_product : Option User → String → ℕ → Action ℕ
admin_delete_product auth slug product_id = do
  user ← lift (authenticate auth)
  member ← reads (require_membership user slug (some Capability.manage_catalog))
  delete_product member.1 product_id
  pure 204
