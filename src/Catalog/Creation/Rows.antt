-- ===== src/Catalog/Creation/Rows.antt =====
-- src/apps/products/schemas.py, the payloads of a new product, and the INSERTs into the tables of
-- src/apps/products/models.py with their unique constraints.
use boutique_backend.Prelude.{
  String, Bool, ◌&&◌, ◌||◌, List, [], ◌∷◌, ◌++◌, exists, ◌==◌, ℕ_eq, string_eq, if◌then◌else◌,
}
use boutique_backend.Prelude.Int.{ℤ}
use boutique_backend.Models.{Catalog, Category, Product, ProductImage, VariantGroup, VariantOption}
use boutique_backend.Api.{integrity_error, ok, err, Action}

-- `OptionInSchema`, `VariantGroupInSchema`, `ImageInSchema` and `ProductCreateSchema`
pub record OptionIn : Type 0 where
  pub value : String
  pub hex : String
  pub position : ℤ

pub record GroupIn : Type 0 where
  pub name : String
  pub position : ℤ
  pub options : List OptionIn

pub record ImageIn : Type 0 where
  pub url : String
  pub alt : String
  pub position : ℤ

pub record ProductCreate : Type 0 where
  pub category_slug : String
  pub name : String
  pub description : String
  pub price : ℤ
  pub is_featured : Bool
  pub is_visible : Bool
  pub images : List ImageIn
  pub variant_groups : List GroupIn

-- The unique constraints of the tables, and their primary keys.
abbrev pub clash_category : Category → Category → Bool
clash_category a b = a.id == b.id || (a.store == b.store && a.slug == b.slug)

abbrev pub clash_product : Product → Product → Bool
clash_product a b = a.id == b.id || (a.store == b.store && a.slug == b.slug)

abbrev pub clash_image : ProductImage → ProductImage → Bool
clash_image a b = a.id == b.id

abbrev pub clash_group : VariantGroup → VariantGroup → Bool
clash_group a b = a.id == b.id || (a.product == b.product && a.name == b.name)

abbrev pub clash_option : VariantOption → VariantOption → Bool
clash_option a b = a.id == b.id || (a.group == b.group && a.value == b.value)

-- An INSERT of one row into a table of the catalog.
unfoldable pub insert_row :
    {A : Type 0} → (A → A → Bool) → (Catalog → List A) → (List A → Catalog → Catalog) → A → Action A
insert_row clash rows with_rows a w =
    if exists (clash a) (rows w.db.catalog) then (err integrity_error, w) else (
      ok a,
      record w {
        db = record w.db { catalog = with_rows (rows w.db.catalog ++ a ∷ []) w.db.catalog };
      },
    )

unfoldable pub insert_category : Category → Action Category
unfolding insert_row
insert_category =
    insert_row clash_category (λ c. c.categories) (λ rows c. record c { categories = rows })

unfoldable pub insert_product : Product → Action Product
unfolding insert_row
insert_product = insert_row clash_product (λ c. c.products) (λ rows c. record c { products = rows })

unfoldable pub insert_image : ProductImage → Action ProductImage
unfolding insert_row
insert_image = insert_row clash_image (λ c. c.images) (λ rows c. record c { images = rows })

unfoldable pub insert_group : VariantGroup → Action VariantGroup
unfolding insert_row
insert_group = insert_row clash_group (λ c. c.groups) (λ rows c. record c { groups = rows })

unfoldable pub insert_option : VariantOption → Action VariantOption
unfolding insert_row
insert_option = insert_row clash_option (λ c. c.options) (λ rows c. record c { options = rows })
