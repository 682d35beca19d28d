-- ===== src/Catalog/Tests.antt =====
-- Runs of the storefront, and the theorems at concrete inputs.
use boutique_backend.Prelude.{false, ◌≡◌, ◌↔◌, refl, true, none, some, [], ◌∷◌, ◌==◌, string_eq}
use boutique_backend.Prelude.Int.{pos}
use boutique_backend.Prelude.Members.{In}
use boutique_backend.Samples.{zita, gown, stock}
use boutique_backend.Catalog.{filtered, list_products, clamp_limit, window}
use boutique_backend.Catalog.Criteria.{Collation, Filters, Query}
use boutique_backend.Catalog.Index.{with_products, covers, cover_of, cover_of_lem}
use boutique_backend.Models.{Product, ProductImage}
use boutique_backend.Samples.{dresses}
use boutique_backend.Catalog.Cards.{images_of, product_card}
use boutique_backend.Catalog.Grid.{IsWanted}
use boutique_backend.Catalog.Listing.{list_products_iff, AreInOrder, list_products-AreInOrder}

program : Unit {0}
unfolding list_products filtered clamp_limit window
program = tt

abbrev exact : Collation
exact = record { iexact = λ a b. a == b; icontains = λ a b. a == b }

abbrev red_dresses : Filters
red_dresses = record {
  category = some "dresses";
  colours = "Red" ∷ "Beige" ∷ [];
  sizes = "M" ∷ [];
  price_min = some (pos 10000);
  price_max = none;
  q = none;
}

-- test_products_filter_across_axes_is_and
run-list_products : list_products exact zita "price_asc" red_dresses stock ≡ gown ∷ []
unfolding program
run-list_products = refl

run-clamp_limit : clamp_limit (pos 1000) ≡ 60
unfolding program
run-clamp_limit = refl

list_products_iff_example :
    In gown (list_products exact zita "price_asc" red_dresses stock)
    ↔ (In gown stock.products × IsWanted exact zita red_dresses stock gown)
list_products_iff_example = list_products_iff exact zita "price_asc" red_dresses stock gown

list_products-AreInOrder_example :
    AreInOrder "price_asc" (list_products exact zita "price_asc" red_dresses stock)
list_products-AreInOrder_example = list_products-AreInOrder exact zita "price_asc" red_dresses stock

run-cover_of : cover_of zita dresses stock ≡ some "https://cdn.example/x.jpg"
unfolding cover_of covers with_products
run-cover_of = refl

cover_of_lem_example :
    (i : ProductImage) × ((p : Product) × (In i stock.images
        × In p stock.products
        × (i.url ≡ "https://cdn.example/x.jpg")
        × (i.store ≡ zita.id)
        × (p.id ≡ i.product)
        × (p.category ≡ dresses.id)
        × (p.is_visible ≡ true)))
cover_of_lem_example = cover_of_lem zita dresses stock "https://cdn.example/x.jpg" run-cover_of

abbrev asked : Query
asked = record {
  category = some "dresses";
  colour = none;
  size = none;
  price_min = none;
  price_max = none;
  q = none;
}

run-product_card : product_card stock gown ≡ record {
  id = 40;
  name = "Gown";
  slug = "gown";
  price = 30000;
  is_featured = false;
  category = some (record { slug = "dresses"; name = "Dresses" });
  cover_image_url = some "https://cdn.example/x.jpg";
}
unfolding product_card images_of
run-product_card = refl
