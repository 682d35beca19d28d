-- ===== src/Catalog.antt =====
-- src/apps/products: the storefront's reads (selectors.py and the storefront controller). How the
-- database compares texts without case, and what Python takes for white space, are parameters.
pub mod Criteria
pub mod Grid
pub mod Listing
pub mod Index
pub mod Paging
pub mod Cards
pub mod Facets
pub mod Slugs
pub mod Creation
pub mod Upload
pub mod Writes
pub mod Frame
pub mod Update
pub mod Deletion
mod Tests
use Prim.Native.Char.{Char}
use boutique_backend.Prelude.{
  ℕ, ◌+◌, ◌-◌, zero, suc, String, Bool, true, false, ◌&&◌, ◌||◌, not, Option, none, some, List, [],
  ◌∷◌, ◌++◌, map, select, exists, find?, head?, elem, is_empty, length, ltb, leb, ◌==◌, ℕ_eq,
  string_eq, if◌then◌else◌,
}
use boutique_backend.Prelude.Int.{ℤ, pos, negsuc}
use boutique_backend.Prelude.Sorting.{order_by}
use boutique_backend.Models.{Boutique, Db, Catalog, Category, Product, ProductImage}
use boutique_backend.Api.{Result, Action, pure, reads, gets, ◌>>=◌, ◌>>◌, get_object_or_404}
use boutique_backend.Tenancy.{find_store}
use Criteria.{Collation, Filters, is_filtered, Query, query_filters}

-- `_filtered`
unfoldable pub filtered : Collation → Boutique → Filters → Catalog → List Product
filtered collation store filters c = select (is_filtered collation store filters c) c.products

-- `-created_at`
abbrev pub newest : Product → Product → Bool
newest earlier p = ltb p.created_at earlier.created_at

abbrev pub then_by : Bool → Bool → Bool → Bool
then_by before after next = before || (not after && next)

-- `-is_featured`
abbrev pub more_featured : Product → Product → Bool
more_featured earlier p = earlier.is_featured && not p.is_featured

-- `_SORTS.get(sort, _SORTS["newest"])`
abbrev pub sorts : String → Product → Product → Bool
sorts sort earlier p =
    if sort == "price_asc"
    then then_by (ltb earlier.price p.price) (ltb p.price earlier.price) (newest earlier p)
    else if sort == "price_desc"
    then then_by (ltb p.price earlier.price) (ltb earlier.price p.price) (newest earlier p)
    else if sort == "featured"
    then then_by (more_featured earlier p) (more_featured p earlier) (newest earlier p)
    else newest earlier p

unfoldable pub list_products : Collation → Boutique → String → Filters → Catalog → List Product
list_products collation store sort filters c =
    order_by (sorts sort) (filtered collation store filters c)

-- `get_product`
unfoldable pub get_product : Boutique → String → Catalog → Result Product
get_product store slug c =
    get_object_or_404 (λ p. (p.store == store.id && p.is_visible) && p.slug == slug) c.products

-- `_MAX_PAGE`
abbrev pub max_page : ℕ
max_page = 60

-- `max(1, min(limit, _MAX_PAGE))`
unfoldable pub clamp_limit : ℤ → ℕ
clamp_limit (pos zero) = 1
clamp_limit (pos (suc n)) = if leb max_page (suc n) then max_page else suc n
clamp_limit (negsuc n) = 1

-- `max(0, offset)`
unfoldable pub clamp_offset : ℤ → ℕ
clamp_offset (pos n) = n
clamp_offset (negsuc n) = 0

-- `qs[offset : offset + limit]`
unfoldable pub window : {A : Type 0} → ℕ → ℕ → List A → List A
window offset limit [] = []
window zero zero (x ∷ xs) = []
window zero (suc limit) (x ∷ xs) = x ∷ window 0 limit xs
window (suc offset) limit (x ∷ xs) = window offset limit xs

-- `PagedProductsSchema`
pub record Page : Type 0 where
  pub items : List Product
  pub count : ℕ
  pub limit : ℕ
  pub offset : ℕ

-- `StorefrontController.products`
unfoldable pub products : (Char → Bool) → Collation → String → String → Query → ℤ → ℤ → Action Page
products is_space collation slug sort query limit offset = do
  store ← reads (find_store slug)
  rows ← gets (λ db. list_products collation store sort (query_filters is_space query) db.catalog)
  pure (record {
    items = window (clamp_offset offset) (clamp_limit limit) rows;
    count = length rows;
    limit = clamp_limit limit;
    offset = clamp_offset offset;
  })

-- `StorefrontController.product`
unfoldable pub product : String → String → Action Product
product slug product_slug = do
  store ← reads (find_store slug)
  reads (λ db. get_product store product_slug db.catalog)
