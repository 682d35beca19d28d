-- ===== src/Catalog/Cards.antt =====
-- src/apps/products/schemas.py: products as the storefront shows them. A foreign key always finds its
-- row; `none` stands for a category that is not there, which the database excludes.
use boutique_backend.Prelude.{
  ℕ, String, Bool, Option, none, some, List, [], ◌∷◌, map, select, find?, ltb, ◌==◌, ℕ_eq,
}
use boutique_backend.Prelude.Sorting.{order_by}
use boutique_backend.Models.{Catalog, Category, Product, ProductImage, VariantGroup, VariantOption}

-- `CategoryRefSchema`
pub record CategoryRef : Type 0 where
  pub slug : String
  pub name : String

-- `ProductImageSchema`
pub record ImageView : Type 0 where
  pub id : ℕ
  pub url : String
  pub alt : String
  pub position : ℕ

-- `VariantOptionSchema`
pub record OptionView : Type 0 where
  pub id : ℕ
  pub value : String
  pub hex : String
  pub position : ℕ
  pub image_url : Option String

-- `VariantGroupSchema`
pub record GroupView : Type 0 where
  pub id : ℕ
  pub name : String
  pub position : ℕ
  pub options : List OptionView

-- `ProductCardSchema`
pub record ProductCard : Type 0 where
  pub id : ℕ
  pub name : String
  pub slug : String
  pub price : ℕ
  pub is_featured : Bool
  pub category : Option CategoryRef
  pub cover_image_url : Option String

-- `ProductDetailSchema`
pub record ProductDetail : Type 0 where
  pub id : ℕ
  pub name : String
  pub slug : String
  pub description : String
  pub price : ℕ
  pub is_featured : Bool
  pub category : Option CategoryRef
  pub images : List ImageView
  pub variant_groups : List GroupView

abbrev pub category_ref : Catalog → ℕ → Option CategoryRef
category_ref c id = elim (find? (λ (k : Category). k.id == id) c.categories) [
  | none ↦ none
  | some k ↦ some (record { slug = k.slug; name = k.name })
]

-- `product.images.all()`, by the model's ordering
unfoldable pub images_of : Catalog → Product → List ProductImage
images_of c p =
    order_by (λ earlier i. ltb earlier.position i.position)
      (select (λ i. i.product == p.id) c.images)

-- `resolve_cover_image_url`
abbrev pub cover_image_url : List ProductImage → Option String
cover_image_url [] = none
cover_image_url (i ∷ is) = some i.url

unfoldable pub product_card : Catalog → Product → ProductCard
product_card c p = record {
  id = p.id;
  name = p.name;
  slug = p.slug;
  price = p.price;
  is_featured = p.is_featured;
  category = category_ref c p.category;
  cover_image_url = cover_image_url (images_of c p);
}

abbrev pub image_view : ProductImage → ImageView
image_view i = record { id = i.id; url = i.url; alt = i.alt; position = i.position }

-- `resolve_image_url`
abbrev pub image_url : Catalog → Option ℕ → Option String
image_url c none = none
image_url c (some id) = elim (find? (λ (i : ProductImage). i.id == id) c.images) [
  | none ↦ none
  | some i ↦ some i.url
]

abbrev pub option_view : Catalog → VariantOption → OptionView
option_view c o = record {
  id = o.id;
  value = o.value;
  hex = o.hex;
  position = o.position;
  image_url = image_url c o.image;
}

unfoldable pub group_view : Catalog → VariantGroup → GroupView
group_view c g = record {
  id = g.id;
  name = g.name;
  position = g.position;
  options = map (option_view c) (
      order_by (λ earlier o. ltb earlier.position o.position)
        (select (λ o. o.group == g.id) c.options));
}

unfoldable pub product_detail : Catalog → Product → ProductDetail
product_detail c p = record {
  id = p.id;
  name = p.name;
  slug = p.slug;
  description = p.description;
  price = p.price;
  is_featured = p.is_featured;
  category = category_ref c p.category;
  images = map image_view (images_of c p);
  variant_groups = map (group_view c) (
      order_by (λ earlier g. ltb earlier.position g.position)
        (select (λ g. g.product == p.id) c.groups));
}
