-- ===== src/Catalog/Creation/Constraints.antt =====
-- The unique constraints of the catalog, kept by every creation on every branch.
use boutique_backend.Prelude.{
  ℕ, ◌≡◌, String, Bool, List, [], ◌∷◌, ◌++◌, exists, ℕ_eq, string_eq, arith, eq_iff, inl, inr,
  Bool-cases,
}
use boutique_backend.Prelude.Int.{ℤ}
use boutique_backend.Prelude.Constraints.{IsDistinct, append-IsDistinct}
use boutique_backend.Models.{
  Boutique, Db, Catalog, Category, Product, ProductImage, VariantGroup, VariantOption,
}
use boutique_backend.Api.{World, Runtime}
use boutique_backend.Api.Keeps.{Keeps}
use boutique_backend.Catalog.Creation.Frame.{
  Inserts, add_category-Keeps, build_product-Keeps, create_category-Keeps, create_product-Keeps,
}
use boutique_backend.Catalog.Creation

-- No two rows of a table of the catalog clash.
pub record TablesAreUnique (c : Catalog) : Type 0 where
  pub categories : IsDistinct Creation.clash_category c.categories
  pub products : IsDistinct Creation.clash_product c.products
  pub images : IsDistinct Creation.clash_image c.images
  pub groups : IsDistinct Creation.clash_group c.groups
  pub options : IsDistinct Creation.clash_option c.options

abbrev pub CatalogIsUnique : Db → Type 0
CatalogIsUnique db = TablesAreUnique db.catalog

abbrev Unique : Db → Type 0
Unique = CatalogIsUnique

insert_row-Keeps :
    {A : Type 0} (clash : A → A → Bool) (rows : Catalog → List A)
    (with_rows : List A → Catalog → Catalog)
    → ((a b : A) → clash a b ≡ clash b a)
    → ((db : Db) → Unique db → IsDistinct clash (rows db.catalog))
    → ((db : Db) (l : List A)
        → Unique db
        → IsDistinct clash l
        → Unique (record db { catalog = with_rows l db.catalog }))
    → (a : A) → Keeps Unique (Creation.insert_row clash rows with_rows a)
unfolding Creation.insert_row
insert_row-Keeps clash rows with_rows comm here put a = record {
  at = λ w h. elim (Bool-cases (exists (clash a) (rows w.db.catalog))) [
    | inl hit ↦ rw hit h
    | inr free ↦ rw free (
        put w.db (rows w.db.catalog ++ a ∷ []) h
          (append-IsDistinct clash comm a (rows w.db.catalog) (here w.db h) free))
  ];
}

insert_category-Keeps : (k : Category) → Keeps Unique (Creation.insert_category k)
unfolding Creation.insert_category
insert_category-Keeps =
    insert_row-Keeps Creation.clash_category (λ c. c.categories)
      (λ l c. record c { categories = l })
      (λ a b. ground (arith, eq_iff a.slug b.slug, eq_iff b.slug a.slug)) (λ db h. h.categories)
      (λ db l h d. record {
        categories = d;
        products = h.products;
        images = h.images;
        groups = h.groups;
        options = h.options;
      })

insert_product-Keeps : (p : Product) → Keeps Unique (Creation.insert_product p)
unfolding Creation.insert_product
insert_product-Keeps =
    insert_row-Keeps Creation.clash_product (λ c. c.products) (λ l c. record c { products = l })
      (λ a b. ground (arith, eq_iff a.slug b.slug, eq_iff b.slug a.slug)) (λ db h. h.products)
      (λ db l h d. record {
        categories = h.categories;
        products = d;
        images = h.images;
        groups = h.groups;
        options = h.options;
      })

insert_image-Keeps : (i : ProductImage) → Keeps Unique (Creation.insert_image i)
unfolding Creation.insert_image
insert_image-Keeps =
    insert_row-Keeps Creation.clash_image (λ c. c.images) (λ l c. record c { images = l })
      (λ a b. ground arith) (λ db h. h.images)
      (λ db l h d. record {
        categories = h.categories;
        products = h.products;
        images = d;
        groups = h.groups;
        options = h.options;
      })

insert_group-Keeps : (g : VariantGroup) → Keeps Unique (Creation.insert_group g)
unfolding Creation.insert_group
insert_group-Keeps =
    insert_row-Keeps Creation.clash_group (λ c. c.groups) (λ l c. record c { groups = l })
      (λ a b. ground (arith, eq_iff a.name b.name, eq_iff b.name a.name)) (λ db h. h.groups)
      (λ db l h d. record {
        categories = h.categories;
        products = h.products;
        images = h.images;
        groups = d;
        options = h.options;
      })

insert_option-Keeps : (o : VariantOption) → Keeps Unique (Creation.insert_option o)
unfolding Creation.insert_option
insert_option-Keeps =
    insert_row-Keeps Creation.clash_option (λ c. c.options) (λ l c. record c { options = l })
      (λ a b. ground (arith, eq_iff a.value b.value, eq_iff b.value a.value)) (λ db h. h.options)
      (λ db l h d. record {
        categories = h.categories;
        products = h.products;
        images = h.images;
        groups = h.groups;
        options = d;
      })

pub Inserts-CatalogIsUnique : Inserts CatalogIsUnique
Inserts-CatalogIsUnique = record {
  category = insert_category-Keeps;
  product = insert_product-Keeps;
  image = insert_image-Keeps;
  group = insert_group-Keeps;
  option = insert_option-Keeps;
}

module _ (rt : Runtime) where
  -- Whatever other requests commit in any round, if they keep the unique constraints of the catalog
  -- then so does `create_product`, on every branch and whether it returns or raises.
  pub create_product-CatalogIsUnique :
      (slugify : String → String) (others : ℕ → Db → Db) (store : Boutique)
      (payload : Creation.ProductCreate)
      → ((k : ℕ) (db : Db) → CatalogIsUnique db → CatalogIsUnique (others k db))
      → (w : World) → CatalogIsUnique w.db
      → CatalogIsUnique (Creation.create_product rt slugify others store payload w).1.db
  create_product-CatalogIsUnique slugify others store payload keep =
      (create_product-Keeps rt slugify others store payload
        (λ c slug. build_product-Keeps Inserts-CatalogIsUnique rt store c slug payload) keep).at

  pub create_category-CatalogIsUnique :
      (slugify : String → String) (others : Db → Db) (store : Boutique) (name : String)
      (position : ℤ)
      → ((db : Db) → CatalogIsUnique db → CatalogIsUnique (others db))
      → (w : World) → CatalogIsUnique w.db
      → CatalogIsUnique (Creation.create_category rt slugify others store name position w).1.db
  create_category-CatalogIsUnique slugify others store name position keep =
      (create_category-Keeps rt slugify others store name position
        (add_category-Keeps Inserts-CatalogIsUnique rt store name position) keep).at
