-- ===== src/Catalog/Paging.antt =====
-- src/apps/products/controllers/storefront_controller.py: walking the grid page by page.
use Prim.Native.Char.{Char}
use boutique_backend.Prelude.{ℕ, zero, suc, ◌+◌, ◌≡◌, String, Bool, List, [], ◌∷◌, ◌++◌}
use boutique_backend.Prelude.Int.{ℤ, pos}
use boutique_backend.Models.{Boutique, Product}
use boutique_backend.Api.{Result, ok, err, World}
use boutique_backend.Tenancy.{find_store}
use boutique_backend.Catalog.{Page, products, list_products}
use boutique_backend.Catalog.Criteria.{Collation, Query, query_filters}

module _ {A : Type 0} where
  -- What comes after the first rows.
  abbrev from : ℕ → List A → List A
  from n [] = []
  from zero (x ∷ xs) = x ∷ xs
  from (suc n) (x ∷ xs) = from n xs

-- A page that was answered, and what the client goes on with at the offset where the page ends.
abbrev pub turned : Result Page → (ℕ → List Product) → List Product
turned (ok page) rest = page.items ++ rest (page.offset + page.limit)
turned (err e) rest = []

module _ (is_space : Char → Bool) (collation : Collation) (slug sort : String) (query : Query)
    (limit : ℤ) (w : World) where
  -- What `n` requests to the handler show, one after the other, each at the offset where the page before
  -- ended.
  abbrev pub walk : ℕ → ℕ → List Product
  walk zero offset = []
  walk (suc n) offset =
      turned (products is_space collation slug sort query limit (pos offset) w).0
        (λ next. walk n next)

  module _ (store : Boutique) (found : find_store slug w.db ≡ ok store) where
    abbrev grid : List Product
    grid = list_products collation store sort (query_filters is_space query) w.db.catalog
