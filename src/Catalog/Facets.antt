-- ===== src/Catalog/Facets.antt =====
-- src/apps/products: the counts of the filter rail (selectors.py and the storefront controller). The
-- database's order of texts and Python's white space are parameters.
pub mod Agreement
pub mod Axes
mod Tests
use Prim.Native.Char.{Char}
use boutique_backend.Prelude.{
  ℕ, String, Bool, ◌&&◌, Option, none, some, List, [], ◌∷◌, ◌++◌, map, select, elem, dedup, length,
  ltb, ◌==◌, ℕ_eq, string_eq, if◌then◌else◌,
}
use boutique_backend.Prelude.Sorting.{order_by}
use boutique_backend.Models.{Boutique, Catalog, Category, Product, VariantGroup, VariantOption}
use boutique_backend.Api.{Action, reads, gets, ◌>>=◌}
use boutique_backend.Tenancy.{find_store}
use boutique_backend.Catalog.{filtered}
use boutique_backend.Catalog.Criteria.{Collation, Filters, Query, query_filters}
use boutique_backend.Catalog.Index.{stands_before}

-- `FacetValue`, `CategoryFacet` and `Facets`
pub record FacetValue : Type 0 where
  pub value : String
  pub count : ℕ
  pub hex : Option String

pub record CategoryFacet : Type 0 where
  pub slug : String
  pub name : String
  pub count : ℕ

pub record Facets : Type 0 where
  pub count : ℕ
  pub price_min : Option ℕ
  pub price_max : Option ℕ
  pub categories : List CategoryFacet
  pub colours : List FacetValue
  pub sizes : List FacetValue

-- `Min` and `Max` of a column, `none` for no rows; `before a b` says that `a` comes first.
abbrev pub first_of : {A : Type 0} → (A → A → Bool) → List A → Option A
first_of before [] = none
first_of before (x ∷ xs) = elim (first_of before xs) [
  | none ↦ some x
  | some y ↦ some (if before y x then y else x)
]

-- The join of the options with their groups.
abbrev pub with_groups :
    List VariantGroup → List VariantOption → List (VariantOption × VariantGroup)
with_groups groups [] = []
with_groups groups (o ∷ os) =
    map (λ g. (o, g)) (select (λ g. g.id == o.group) groups) ++ with_groups groups os

-- `VariantOption.objects.filter(store=store, group__name__iexact=axis, group__product__in=ids)`
abbrev pub on_rail : Collation → Boutique → String → List ℕ → VariantOption × VariantGroup → Bool
on_rail collation store axis ids r =
    r.0.store == store.id && (collation.iexact r.1.name axis && elem r.1.product ids)

unfoldable pub axis_rows :
    Collation → Boutique → String → List ℕ → Catalog → List (VariantOption × VariantGroup)
axis_rows collation store axis ids c =
    select (on_rail collation store axis ids) (with_groups c.groups c.options)

-- `Count("group__product", distinct=True)` of the rows with a value
unfoldable pub product_count : List (VariantOption × VariantGroup) → String → ℕ
product_count rows v = length (dedup (map (λ r. r.1.product) (select (λ r. r.0.value == v) rows)))

-- `r["hex"] or None`
abbrev pub shown_hex : Option String → Option String
shown_hex none = none
shown_hex (some hex) = if hex == "" then none else some hex

module _ (collation : Collation) (text_before : String → String → Bool) where
  -- `.values("value")` and `.order_by("value")`
  abbrev pub values : List (VariantOption × VariantGroup) → List String
  values rows = order_by text_before (dedup (map (λ r. r.0.value) rows))

  abbrev pub colour_facet : List (VariantOption × VariantGroup) → String → FacetValue
  colour_facet rows v = record {
    value = v;
    count = product_count rows v;
    hex = shown_hex (
        first_of (λ a b. text_before b a) (map (λ r. r.0.hex) (select (λ r. r.0.value == v) rows)));
  }

  abbrev pub size_facet : List (VariantOption × VariantGroup) → String → FacetValue
  size_facet rows v = record { value = v; count = product_count rows v; hex = none }

  -- `Count("products", filter=Q(products__in=ids), distinct=True)`
  abbrev pub category_count : List ℕ → Catalog → Category → ℕ
  category_count ids c k = length (select (λ p. p.category == k.id && elem p.id ids) c.products)

  unfoldable pub category_facets : Boutique → List ℕ → Catalog → List CategoryFacet
  category_facets store ids c =
      map (λ k. record { slug = k.slug; name = k.name; count = category_count ids c k })
        (order_by (stands_before text_before)
          (select (λ k. k.store == store.id && ltb 0 (category_count ids c k)) c.categories))

  unfoldable pub product_facets : Boutique → Filters → Catalog → Facets
  product_facets store filters c =
      let ids = map (λ p. p.id) (filtered collation store filters c) in
      let prices = map (λ p. p.price) (select (λ p. elem p.id ids) c.products) in
      let colour_rows = axis_rows collation store "Colour" ids c in
      let size_rows = axis_rows collation store "Size" ids c in
      record {
        count = length ids;
        price_min = first_of ltb prices;
        price_max = first_of (λ a b. ltb b a) prices;
        categories = category_facets store ids c;
        colours = map (colour_facet colour_rows) (values colour_rows);
        sizes = map (size_facet size_rows) (values size_rows);
      }

-- `StorefrontController.facets`
unfoldable pub facets :
    (Char → Bool) → Collation → (String → String → Bool) → String → Query → Action Facets
facets is_space collation text_before slug query = do
  store ← reads (find_store slug)
  gets (λ db. product_facets collation text_before store (query_filters is_space query) db.catalog)
