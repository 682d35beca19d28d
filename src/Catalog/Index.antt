-- ===== src/Catalog/Index.antt =====
-- src/apps/products/selectors.py: the index of the categories, each with a count and a cover.
use boutique_backend.Prelude.{
  ℕ, ◌≡◌, ◌⊎◌, refl, inl, inr, String, Bool, true, ◌&&◌, Option, none, some, List, [], ◌∷◌, ◌++◌,
  map, select, length, ltb, ◌==◌, ℕ_eq, arith,
}
use boutique_backend.Prelude.Sorting.{order_by}
use boutique_backend.Prelude.Members.{In, In-select, In-order_by}
use boutique_backend.Models.{Boutique, Catalog, Category, Product, ProductImage}
use boutique_backend.Api.{Action, reads, gets, ◌>>=◌}
use boutique_backend.Tenancy.{find_store}
use boutique_backend.Catalog.{newest, then_by, more_featured}

-- `CategoryCard`
pub record CategoryCard : Type 0 where
  pub id : ℕ
  pub name : String
  pub slug : String
  pub product_count : ℕ
  pub cover_image_url : Option String

-- The join of the photos with their products.
unfoldable pub with_products : List Product → List ProductImage → List (ProductImage × Product)
with_products products [] = []
with_products products (i ∷ is) =
    map (λ p. (i, p)) (select (λ p. p.id == i.product) products) ++ with_products products is

abbrev pub may_cover : Boutique → Category → ProductImage × Product → Bool
may_cover store category r =
    r.0.store == store.id && (r.1.category == category.id && r.1.is_visible)

-- `order_by("-product__is_featured", "-product__created_at", "position")`
abbrev pub covers_before : ProductImage × Product → ProductImage × Product → Bool
covers_before earlier r =
    then_by (more_featured earlier.1 r.1) (more_featured r.1 earlier.1)
      (then_by (newest earlier.1 r.1) (newest r.1 earlier.1) (ltb earlier.0.position r.0.position))

unfoldable pub covers : Boutique → Category → Catalog → List (ProductImage × Product)
covers store category c =
    order_by covers_before (select (may_cover store category) (with_products c.products c.images))

abbrev pub first_url : List (ProductImage × Product) → Option String
first_url [] = none
first_url (r ∷ rs) = some r.0.url

unfoldable pub cover_of : Boutique → Category → Catalog → Option String
cover_of store category c = first_url (covers store category c)

abbrev pub card : Boutique → Catalog → Category → CategoryCard
card store c k = record {
  id = k.id;
  name = k.name;
  slug = k.slug;
  product_count = length (select (λ p. p.category == k.id && p.is_visible) c.products);
  cover_image_url = cover_of store k c;
}

-- `ordering = ["position", "name"]`, the names by the database's collation
abbrev pub stands_before : (String → String → Bool) → Category → Category → Bool
stands_before collates_before earlier k =
    then_by (ltb earlier.position k.position) (ltb k.position earlier.position)
      (collates_before earlier.name k.name)

unfoldable pub categories_index : (String → String → Bool) → Boutique → Catalog → List CategoryCard
categories_index collates_before store c =
    map (card store c)
      (order_by (stands_before collates_before) (select (λ k. k.store == store.id) c.categories))

-- `StorefrontController.categories`
unfoldable pub categories : (String → String → Bool) → String → Action (List CategoryCard)
categories collates_before slug = do
  store ← reads (find_store slug)
  gets (λ db. categories_index collates_before store db.catalog)

paired :
    (i : ProductImage) (ps : List Product) (rest : List (ProductImage × Product))
    (r : ProductImage × Product)
    → In r (map (λ p. (i, p)) ps ++ rest)
    → ((r.0 ≡ i) × In r.1 ps) ⊎ In r rest
paired i [] rest r h = inr h
paired i (p ∷ ps) rest r (inl e) = inl (ground (arith, e), inl (ground (arith, e)))
paired i (p ∷ ps) rest r (inr h) = elim (paired i ps rest r h) [
  | inl (same, row) ↦ inl (same, inr row)
  | inr row ↦ inr row
]

-- A pair of the join is a stored photo and the stored product that it names.
with_products_lem :
    (products : List Product) (images : List ProductImage) (r : ProductImage × Product)
    → In r (with_products products images)
    → In r.0 images × In r.1 products × (r.1.id ≡ r.0.product)
unfolding with_products
with_products_lem products [] r h = absurd h
with_products_lem products (i ∷ is) r h =
    elim (paired i (select (λ p. p.id == i.product) products) (with_products products is) r h) [
      | inl (same, row) ↦
          let (stored, fits) = (In-select (λ p. p.id == i.product) r.1 products).0 row in
          (inl same, stored, ground arith)
      | inr row ↦
          let (image, product, named) = with_products_lem products is r row in
          (inr image, product, named)
    ]

first_url_lem :
    (rs : List (ProductImage × Product)) (url : String)
    → first_url rs ≡ some url
    → (r : ProductImage × Product) × (In r rs × (r.0.url ≡ url))
first_url_lem [] url h = absurd (ground arith)
first_url_lem (r ∷ rs) url h = (r, (inl refl, ground arith))

-- The cover of a category is the address of a stored photo of the store, and the photo shows a stored
-- product that is visible and in that category.
pub cover_of_lem :
    (store : Boutique) (category : Category) (c : Catalog) (url : String)
    → cover_of store category c ≡ some url
    → (i : ProductImage) × ((p : Product) × (In i c.images
          × In p c.products
          × (i.url ≡ url)
          × (i.store ≡ store.id)
          × (p.id ≡ i.product)
          × (p.category ≡ category.id)
          × (p.is_visible ≡ true)))
unfolding cover_of covers
cover_of_lem store category c url h =
    let (r, (first, same)) = first_url_lem (covers store category c) url h in
    let (row, fits) =
      (In-select (may_cover store category) r (with_products c.products c.images)).0 (
        (In-order_by covers_before r
            (select (may_cover store category) (with_products c.products c.images))).0
          first) in
    let (image, product, named) = with_products_lem c.products c.images r row in
    (
      r.0,
      (
        r.1,
        (
          image,
          product,
          same,
          ground (arith, fits),
          named,
          ground (arith, fits),
          ground (arith, fits),
        ),
      ),
    )
