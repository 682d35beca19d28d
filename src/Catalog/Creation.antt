-- ===== src/Catalog/Creation.antt =====
-- src/apps/products: creating categories and products (services.py and the catalog admin controller).
pub mod Frame
pub mod Constraints
pub mod Failures
pub mod Retry
mod Rows
mod Tests
unfoldable pub use Rows.*
use boutique_backend.Prelude.{
  ℕ, zero, suc, ◌+◌, String, Bool, ◌&&◌, ◌||◌, Option, none, some, List, [], ◌∷◌, ◌++◌, exists,
  length, ◌==◌, ℕ_eq, string_eq, if◌then◌else◌,
}
use boutique_backend.Prelude.Int.{ℤ}
use boutique_backend.Models.{
  Boutique, User, Db, Catalog, Category, Product, ProductImage, VariantGroup, VariantOption,
}
use boutique_backend.Api.{
  Error, http, integrity_error, out_of_fuel, Result, ok, err, Runtime, Action, pure, raise, lift,
  reads, gets, atomic, ◌>>=◌, ◌>>◌, modify_db, draw, get_object_or_404, positive_integer, varchar,
}
use boutique_backend.Tenancy.{Capability, require_membership, authenticate}
use boutique_backend.Orders.{on_integrity_error}
use boutique_backend.Catalog.Slugs.{unique_slug}

-- `Category.objects.filter(store=store, slug=s).exists()`, row by row
abbrev pub takes_category : Boutique → Category → String → Bool
takes_category store k slug = k.store == store.id && k.slug == slug

abbrev pub takes_product : Boutique → Product → String → Bool
takes_product store p slug = p.store == store.id && p.slug == slug

-- A search that ran out of rounds is an error of the model's own.
abbrev pub found_slug : Option String → Result String
found_slug none = err out_of_fuel
found_slug (some slug) = ok slug

module _ (slugify : String → String) where
  unfoldable pub category_slug : Boutique → String → Db → Result String
  category_slug store name db = found_slug (
      unique_slug slugify (length db.categories + 1)
        (λ s. exists (λ k. takes_category store k s) db.categories) name)

  unfoldable pub product_slug : Boutique → String → Db → Result String
  product_slug store name db = found_slug (
      unique_slug slugify (length db.products + 1)
        (λ s. exists (λ p. takes_product store p s) db.products) name)

abbrev pub try_again : Error
try_again = http 409 "Could not place the product; please retry."

-- The `except` clause: `again` is the rest of the loop.
abbrev pub after_clash : Boutique → String → Action Product → Action Product
after_clash store slug again = do
  lost ← gets (λ db. exists (λ p. takes_product store p slug) db.products)
  if lost then again else raise integrity_error

module _ (rt : Runtime) where
  unfoldable pub add_category : Boutique → String → ℤ → String → Action Category
  add_category store name position slug = do
    n ← draw
    lift (varchar 255 name)
    lift (varchar 255 slug)
    place ← lift (positive_integer position)
    insert_category (record {
      id = rt.uuid4 n;
      store = store.id;
      name = name;
      slug = slug;
      position = place;
      created_at = rt.now n;
    })

  -- `others` is what other requests commit between the search and the INSERT.
  unfoldable pub create_category :
      (String → String) → (Db → Db) → Boutique → String → ℤ → Action Category
  create_category slugify others store name position = do
    slug ← reads (category_slug slugify store name)
    modify_db others
    add_category store name position slug

  unfoldable pub add_product : Boutique → Category → String → ProductCreate → Action Product
  add_product store category slug payload = do
    n ← draw
    lift (varchar 255 payload.name)
    lift (varchar 255 slug)
    price ← lift (positive_integer payload.price)
    insert_product (record {
      id = rt.uuid4 n;
      store = store.id;
      category = category.id;
      name = payload.name;
      slug = slug;
      description = payload.description;
      price = price;
      is_visible = payload.is_visible;
      is_featured = payload.is_featured;
      created_at = rt.now n;
      updated_at = rt.now n;
    })

  unfoldable pub add_image : Boutique → Product → ImageIn → Action ProductImage
  add_image store product i = do
    n ← draw
    lift (varchar 500 i.url)
    lift (varchar 255 i.alt)
    place ← lift (positive_integer i.position)
    insert_image (record {
      id = rt.uuid4 n;
      store = store.id;
      product = product.id;
      url = i.url;
      alt = i.alt;
      position = place;
    })

  -- `bulk_create`: the surrounding transaction makes it all or nothing
  unfoldable pub add_images : Boutique → Product → List ImageIn → Action (Unit {0})
  add_images store product [] = pure tt
  add_images store product (i ∷ is) = do add_image store product i; add_images store product is

  unfoldable pub add_option : Boutique → VariantGroup → OptionIn → Action VariantOption
  add_option store group o = do
    n ← draw
    lift (varchar 100 o.value)
    lift (varchar 7 o.hex)
    place ← lift (positive_integer o.position)
    insert_option (record {
      id = rt.uuid4 n;
      store = store.id;
      group = group.id;
      value = o.value;
      hex = o.hex;
      image = none;
      position = place;
    })

  unfoldable pub add_options : Boutique → VariantGroup → List OptionIn → Action (Unit {0})
  add_options store group [] = pure tt
  add_options store group (o ∷ os) = do add_option store group o; add_options store group os

  unfoldable pub add_group : Boutique → Product → GroupIn → Action VariantGroup
  add_group store product g = do
    n ← draw
    lift (varchar 100 g.name)
    place ← lift (positive_integer g.position)
    insert_group (record {
      id = rt.uuid4 n;
      store = store.id;
      product = product.id;
      name = g.name;
      position = place;
    })

  unfoldable pub add_groups : Boutique → Product → List GroupIn → Action (Unit {0})
  add_groups store product [] = pure tt
  add_groups store product (g ∷ gs) = do
    group ← add_group store product g
    add_options store group g.options
    add_groups store product gs

  -- `_build_product`
  unfoldable pub build_product : Boutique → Category → String → ProductCreate → Action Product
  build_product store category slug payload = do
    product ← add_product store category slug payload
    add_images store product payload.images
    add_groups store product payload.variant_groups
    pure product

  -- `for _ in range(5)`, with the rounds that are left. `others k` is what other requests commit in the
  -- round that `k` more may follow, between its search and its INSERT.
  unfoldable pub attempts :
      (String → String) → (ℕ → Db → Db) → Boutique → Category → ProductCreate → ℕ → Action Product
  attempts slugify others store category payload zero = raise try_again
  attempts slugify others store category payload (suc k) = do
    slug ← reads (product_slug slugify store payload.name)
    modify_db (others k)
    on_integrity_error (atomic (build_product store category slug payload))
        (after_clash store slug (attempts slugify others store category payload k))

  unfoldable pub create_product :
      (String → String) → (ℕ → Db → Db) → Boutique → ProductCreate → Action Product
  create_product slugify others store payload = do
    category ← reads λ db.
        get_object_or_404 (λ k. k.store == store.id && k.slug == payload.category_slug)
          db.categories
    attempts slugify others store category payload 5

  -- `CatalogAdminController.create_category`
  unfoldable pub admin_create_category :
      (String → String) → (Db → Db) → Option User → String → String → ℤ → Action (ℕ × Category)
  admin_create_category slugify others auth slug name position = do
    user ← lift (authenticate auth)
    member ← reads (require_membership user slug (some Capability.manage_catalog))
    category ← create_category slugify others member.1 name position
    pure (201, category)

  -- `CatalogAdminController.create_product`
  unfoldable pub admin_create_product :
      (String → String)
      → (ℕ → Db → Db)
      → Option User
      → String
      → ProductCreate
      → Action (ℕ × Product)
  admin_create_product slugify others auth slug payload = do
    user ← lift (authenticate auth)
    member ← reads (require_membership user slug (some Capability.manage_catalog))
    product ← create_product slugify others member.1 payload
    pure (201, product)
