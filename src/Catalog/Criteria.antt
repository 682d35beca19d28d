-- ===== src/Catalog/Criteria.antt =====
-- src/apps/products: the storefront's filters, one condition on a product to each (selectors.py), and
-- the query parameters that they are read from (the storefront controller).
use Prim.Native.Char.{Char}
use boutique_backend.Prelude.{
  ℕ, String, Bool, true, false, ◌&&◌, ◌||◌, Option, none, some, List, exists, elem, is_empty, leb,
  ◌==◌, ℕ_eq, string_eq, [], map, select, not, if◌then◌else◌,
}
use boutique_backend.Prelude.Strings.{strip, split_char}
use boutique_backend.Prelude.Int.{ℤ, pos, negsuc}
use boutique_backend.Models.{Boutique, Catalog, Category, Product, VariantGroup, VariantOption}

-- `iexact` and `icontains` of the database, the pattern last.
pub record Collation : Type 0 where
  pub iexact : String → String → Bool
  pub icontains : String → String → Bool

-- The keyword arguments of `_filtered`.
pub record Filters : Type 0 where
  pub category : Option String
  pub colours : List String
  pub sizes : List String
  pub price_min : Option ℤ
  pub price_max : Option ℤ
  pub q : Option String

-- `category__slug=category`; an empty text is no filter.
abbrev pub in_category : Option String → Catalog → Product → Bool
in_category none c p = true
in_category (some slug) c p =
    slug == "" || exists (λ (k : Category). k.id == p.category && k.slug == slug) c.categories

-- `variant_groups__options__value__in=values` within one group
abbrev pub offers : List String → Catalog → VariantGroup → Bool
offers values c g = exists (λ (o : VariantOption). o.group == g.id && elem o.value values) c.options

-- One axis: the name of a group and a value of that same group, in one join.
abbrev pub on_axis : Collation → String → List String → Catalog → Product → Bool
on_axis collation axis values c p =
    is_empty values
    || exists
        (λ (g : VariantGroup).
          g.product == p.id && (collation.iexact g.name axis && offers values c g))
        c.groups

abbrev pub at_least : Option ℤ → ℕ → Bool
at_least none price = true
at_least (some (pos n)) price = leb n price
at_least (some (negsuc n)) price = true

abbrev pub at_most : Option ℤ → ℕ → Bool
at_most none price = true
at_most (some (pos n)) price = leb price n
at_most (some (negsuc n)) price = false

abbrev pub mentions : Collation → Option String → Product → Bool
mentions collation none p = true
mentions collation (some q) p =
    q == "" || (collation.icontains p.name q || collation.icontains p.description q)

abbrev pub is_filtered : Collation → Boutique → Filters → Catalog → Product → Bool
is_filtered collation store f c p =
    (p.store == store.id && p.is_visible)
    && (in_category f.category c p
        && (on_axis collation "Colour" f.colours c p
            && (on_axis collation "Size" f.sizes c p
                && (at_least f.price_min p.price
                    && (at_most f.price_max p.price && mentions collation f.q p)))))

-- `_multi`
unfoldable pub multi : (Char → Bool) → Option String → List String
multi is_space none = []
multi is_space (some value) =
    if value == ""
    then []
    else select (λ part. not (part == "")) (map (strip is_space) (split_char 44 value))

-- The query parameters of the grid and of the filter rail.
pub record Query : Type 0 where
  pub category : Option String
  pub colour : Option String
  pub size : Option String
  pub price_min : Option ℤ
  pub price_max : Option ℤ
  pub q : Option String

unfoldable pub query_filters : (Char → Bool) → Query → Filters
unfolding multi
query_filters is_space query = record {
  category = query.category;
  colours = multi is_space query.colour;
  sizes = multi is_space query.size;
  price_min = query.price_min;
  price_max = query.price_max;
  q = query.q;
}
