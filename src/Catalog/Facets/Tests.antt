-- ===== src/Catalog/Facets/Tests.antt =====
-- Runs of the filter rail, and the theorem at a concrete input.
use Prim.Native.Char.{code}
use boutique_backend.Prelude.{
  ◌≡◌, refl, sym, ap, ◌∙◌, inl, inr, String, Bool, false, none, some, [], ◌∷◌, length, All, ◌==◌,
  ℕ_eq, string_eq,
}
use boutique_backend.Prelude.Members.{In}
use boutique_backend.Models.{Product, VariantOption}
use boutique_backend.Samples.{zita, stock}
use boutique_backend.Catalog.{filtered}
use boutique_backend.Catalog.Criteria.{Collation, Filters, multi}
use boutique_backend.Catalog.Facets.{axis_rows, product_count, category_facets, product_facets}
use boutique_backend.Catalog.Facets.Agreement.{IsStocked, product_facets_lem}

program : Unit {0}
unfolding filtered axis_rows product_count category_facets product_facets multi
program = tt

abbrev exact : Collation
exact = record { iexact = λ a b. a == b; icontains = λ a b. a == b }

abbrev before : String → String → Bool
before a b = false

abbrev all_products : Filters
all_products = record {
  category = none;
  colours = [];
  sizes = [];
  price_min = none;
  price_max = none;
  q = none;
}

run-product_facets : product_facets exact before zita all_products stock ≡ record {
  count = 1;
  price_min = some 30000;
  price_max = some 30000;
  categories = record { slug = "dresses"; name = "Dresses"; count = 1 } ∷ [];
  colours = record { value = "Red"; count = 1; hex = some "#C0392B" } ∷ [];
  sizes = record { value = "M"; count = 1; hex = none } ∷ [];
}
unfolding program
run-product_facets = refl

-- `?colour=Beige, Red,`
run-multi : multi (λ c. code c == 32) (some "Beige, Red,") ≡ "Beige" ∷ "Red" ∷ []
unfolding program
run-multi = refl

option_store : (o : VariantOption) → In o stock.options → o.store ≡ 1
option_store o (inl e) = ap (λ (x : VariantOption). x.store) e
option_store o (inr (inl e)) = ap (λ (x : VariantOption). x.store) e
option_store o (inr (inr i)) = absurd i

product_store : (p : Product) → In p stock.products → p.store ≡ 1
product_store p (inl e) = ap (λ (x : Product). x.store) e
product_store p (inr (inl e)) = ap (λ (x : Product). x.store) e
product_store p (inr (inr i)) = absurd i

stock-IsStocked : IsStocked stock
stock-IsStocked = record {
  ids = (refl, (refl, tt));
  stores = λ o g p i j k e d. option_store o i ∙ sym (product_store p k);
}

product_facets_lem_example :
    All
      (λ r.
        r.count
        ≡ length (filtered exact zita (record all_products { colours = r.value ∷ [] }) stock))
      (product_facets exact before zita (record all_products { colours = [] }) stock).colours
    × All
        (λ r.
          r.count
          ≡ length (filtered exact zita (record all_products { sizes = r.value ∷ [] }) stock))
        (product_facets exact before zita (record all_products { sizes = [] }) stock).sizes
product_facets_lem_example = product_facets_lem exact before zita all_products stock stock-IsStocked
