-- ===== src/Catalog/Creation/Tests.antt =====
-- Runs of create_category and create_product, and the theorems at concrete inputs.
use boutique_backend.Prelude.{
  ◌+◌, ℕ, ◌<◌, ◌≡◌, ◌≢◌, refl, String, Bool, true, false, Option, some, List, [], ◌∷◌, ◌++◌, exists,
  length, arith, ◌==◌, ◌&&◌, ℕ_eq, string_eq, eq_iff, if◌then◌else◌,
}
use boutique_backend.Prelude.Int.{pos}
use boutique_backend.Models.{Db, Product}
use boutique_backend.Api.{err, ok, World, get_object_or_404, positive_integer, varchar}
use boutique_backend.Samples.{runtime, zita, gown, heels, shop, opening}
use boutique_backend.Catalog.Slugs.{unique_slug, candidate}
use boutique_backend.Catalog.Slugs.Search.{all_taken, unique_slug_lem}
use boutique_backend.Catalog.Creation
use boutique_backend.Catalog.Creation.{try_again, takes_product, create_product, create_category}
use boutique_backend.Catalog.Creation.Constraints.{CatalogIsUnique}
use boutique_backend.Catalog.Creation.Retry.{create_product_lem}

program : Unit {0}
unfolding candidate create_product Creation.attempts Creation.build_product Creation.add_product
    Creation.add_images Creation.add_image Creation.add_groups Creation.add_group
    Creation.add_options Creation.add_option Creation.insert_product Creation.insert_image
    Creation.insert_group Creation.insert_option Creation.insert_category Creation.insert_row
    Creation.product_slug Creation.category_slug Creation.add_category create_category unique_slug
    get_object_or_404 positive_integer varchar
program = tt

abbrev always_gown : String → String
always_gown s = "gown"

abbrev payload : Creation.ProductCreate
payload = record {
  category_slug = "dresses";
  name = "Gown";
  description = "";
  price = pos 45000;
  is_featured = false;
  is_visible = true;
  images = record { url = "https://cdn.example/a.jpg"; alt = ""; position = pos 0 } ∷ [];
  variant_groups =
      record {
        name = "Size";
        position = pos 0;
        options = record { value = "S"; hex = ""; position = pos 0 } ∷ [];
      }
      ∷ [];
}

abbrev rival : Product
rival = record gown { id = 49; slug = "gown-2" }

-- Another request takes the slug in the first round, and no other is busy.
abbrev busy : ℕ → Db → Db
busy k db =
    if k == 4
    then record db { catalog = record db.catalog { products = db.products ++ rival ∷ [] } }
    else db

abbrev slugs : World → List String
slugs w = boutique_backend.Prelude.map (λ (p : Product). p.slug) w.db.products

-- The loser of the race tries again, and leaves nothing of its first round behind.
run-create_product :
    slugs (create_product runtime always_gown busy zita payload opening).1
    ≡ "gown" ∷ "heels" ∷ "gown-2" ∷ "gown-3" ∷ []
unfolding program
run-create_product = refl

run-create_category :
    (create_category runtime (λ s. "") (λ db. db) zita "***" (pos 1) opening).0
    ≡ ok (record {
      id = 1000;
      store = 1;
      name = "***";
      slug = "item";
      position = 1;
      created_at = 50;
    })
unfolding program
run-create_category = refl

takes_one :
    (p : Product) (s t : String)
    → takes_product zita p s ≡ true
    → takes_product zita p t ≡ true
    → s ≡ t
takes_one p s t hs ht = ground (arith, eq_iff p.slug s, eq_iff p.slug t)

unique_slug_lem_example :
    let taken = λ (s : String). exists (λ p. takes_product zita p s) (gown ∷ heels ∷ []) in
    (n : ℕ) × ((unique_slug always_gown (length (gown ∷ heels ∷ []) + 1) taken "Gown"
        ≡ some (candidate "gown" n))
      × (taken (candidate "gown" n) ≡ false)
      × (all_taken taken "gown" n ≡ true))
unique_slug_lem_example =
    unique_slug_lem always_gown "Gown" (takes_product zita) (gown ∷ heels ∷ []) takes_one

abbrev shop-CatalogIsUnique : CatalogIsUnique shop
shop-CatalogIsUnique = record {
  categories = (refl, tt);
  products = (refl, (refl, tt));
  images = (refl, tt);
  groups = (refl, (refl, tt));
  options = (refl, (refl, tt));
}

create_product_lem_example :
    (create_product runtime always_gown busy zita payload opening).0 ≢ err try_again
create_product_lem_example =
    create_product_lem runtime always_gown busy zita payload 3 (omega arith) (λ db. refl) opening
