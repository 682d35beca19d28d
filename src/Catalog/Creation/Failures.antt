-- ===== src/Catalog/Creation/Failures.antt =====
-- `_build_product` fails with a database error, and with no other.
use boutique_backend.Prelude.{
  ℕ, ◌≢◌, String, Bool, List, [], ◌∷◌, exists, arith, inl, inr, Bool-cases,
}
use boutique_backend.Prelude.Int.{ℤ}
use boutique_backend.Models.{
  Boutique, Catalog, Category, Product, ProductImage, VariantGroup, VariantOption,
}
use boutique_backend.Api.{
  Error, integrity_error, data_error, err, Runtime, positive_integer, varchar,
}
use boutique_backend.Api.Avoids.{
  Avoids, Avoids-pure, Avoids-bind, Avoids-check, Avoids-drawn, varchar_err, positive_integer_err,
}
use boutique_backend.Catalog.Creation

module _ (e : Error) (not_data : data_error ≢ e) (not_integrity : integrity_error ≢ e) where
  insert_row-Avoids :
      {A : Type 0} (clash : A → A → Bool) (rows : Catalog → List A)
      (with_rows : List A → Catalog → Catalog) (a : A)
      → Avoids e (Creation.insert_row clash rows with_rows a)
  unfolding Creation.insert_row
  insert_row-Avoids clash rows with_rows a = record {
    at = λ w h. elim (Bool-cases (exists (clash a) (rows w.db.catalog))) [
      | inl hit ↦ not_integrity (ground (arith, h, hit))
      | inr free ↦ absurd (ground (arith, h, free))
    ];
  }

  insert_category-Avoids : (k : Category) → Avoids e (Creation.insert_category k)
  unfolding Creation.insert_category
  insert_category-Avoids =
      insert_row-Avoids Creation.clash_category (λ c. c.categories)
        (λ l c. record c { categories = l })

  insert_product-Avoids : (p : Product) → Avoids e (Creation.insert_product p)
  unfolding Creation.insert_product
  insert_product-Avoids =
      insert_row-Avoids Creation.clash_product (λ c. c.products) (λ l c. record c { products = l })

  insert_image-Avoids : (i : ProductImage) → Avoids e (Creation.insert_image i)
  unfolding Creation.insert_image
  insert_image-Avoids =
      insert_row-Avoids Creation.clash_image (λ c. c.images) (λ l c. record c { images = l })

  insert_group-Avoids : (g : VariantGroup) → Avoids e (Creation.insert_group g)
  unfolding Creation.insert_group
  insert_group-Avoids =
      insert_row-Avoids Creation.clash_group (λ c. c.groups) (λ l c. record c { groups = l })

  insert_option-Avoids : (o : VariantOption) → Avoids e (Creation.insert_option o)
  unfolding Creation.insert_option
  insert_option-Avoids =
      insert_row-Avoids Creation.clash_option (λ c. c.options) (λ l c. record c { options = l })

  text : (n : ℕ) (s : String) → varchar n s ≢ err e
  text n s = varchar_err e n s not_data

  number : (n : ℤ) → positive_integer n ≢ err e
  number n = positive_integer_err e n not_data not_integrity

  module _ (rt : Runtime) where
    pub add_category-Avoids :
        (store : Boutique) (name : String) (position : ℤ) (slug : String)
        → Avoids e (Creation.add_category rt store name position slug)
    unfolding Creation.add_category
    add_category-Avoids store name position slug = Avoids-drawn e _ λ n.
        Avoids-check e (varchar 255 name) _ (text 255 name) λ _.
          Avoids-check e (varchar 255 slug) _ (text 255 slug) λ _.
            Avoids-check e (positive_integer position) _ (number position)
              λ place. insert_category-Avoids _

    add_product-Avoids :
        (store : Boutique) (category : Category) (slug : String) (payload : Creation.ProductCreate)
        → Avoids e (Creation.add_product rt store category slug payload)
    unfolding Creation.add_product
    add_product-Avoids store category slug payload = Avoids-drawn e _ λ n.
        Avoids-check e (varchar 255 payload.name) _ (text 255 payload.name) λ _.
          Avoids-check e (varchar 255 slug) _ (text 255 slug) λ _.
            Avoids-check e (positive_integer payload.price) _ (number payload.price)
              λ price. insert_product-Avoids _

    add_images-Avoids :
        (store : Boutique) (product : Product) (is : List Creation.ImageIn)
        → Avoids e (Creation.add_images rt store product is)
    unfolding Creation.add_images Creation.add_image
    add_images-Avoids store product [] = Avoids-pure e tt
    add_images-Avoids store product (i ∷ is) =
        Avoids-bind e (Creation.add_image rt store product i) _
          (Avoids-drawn e _ λ n. Avoids-check e (varchar 500 i.url) _ (text 500 i.url) λ _.
            Avoids-check e (varchar 255 i.alt) _ (text 255 i.alt) λ _.
              Avoids-check e (positive_integer i.position) _ (number i.position)
                λ place. insert_image-Avoids _)
          λ _. add_images-Avoids store product is

    add_options-Avoids :
        (store : Boutique) (group : VariantGroup) (os : List Creation.OptionIn)
        → Avoids e (Creation.add_options rt store group os)
    unfolding Creation.add_options Creation.add_option
    add_options-Avoids store group [] = Avoids-pure e tt
    add_options-Avoids store group (o ∷ os) =
        Avoids-bind e (Creation.add_option rt store group o) _
          (Avoids-drawn e _ λ n. Avoids-check e (varchar 100 o.value) _ (text 100 o.value) λ _.
            Avoids-check e (varchar 7 o.hex) _ (text 7 o.hex) λ _.
              Avoids-check e (positive_integer o.position) _ (number o.position)
                λ place. insert_option-Avoids _)
          λ _. add_options-Avoids store group os

    add_groups-Avoids :
        (store : Boutique) (product : Product) (gs : List Creation.GroupIn)
        → Avoids e (Creation.add_groups rt store product gs)
    unfolding Creation.add_groups Creation.add_group
    add_groups-Avoids store product [] = Avoids-pure e tt
    add_groups-Avoids store product (g ∷ gs) =
        Avoids-bind e (Creation.add_group rt store product g) _
          (Avoids-drawn e _ λ n. Avoids-check e (varchar 100 g.name) _ (text 100 g.name) λ _.
            Avoids-check e (positive_integer g.position) _ (number g.position)
              λ place. insert_group-Avoids _)
          λ group.
            Avoids-bind e (Creation.add_options rt store group g.options) _
              (add_options-Avoids store group g.options) λ _. add_groups-Avoids store product gs

    pub build_product-Avoids :
        (store : Boutique) (category : Category) (slug : String) (payload : Creation.ProductCreate)
        → Avoids e (Creation.build_product rt store category slug payload)
    unfolding Creation.build_product
    build_product-Avoids store category slug payload =
        Avoids-bind e (Creation.add_product rt store category slug payload) _
          (add_product-Avoids store category slug payload)
          λ product.
            Avoids-bind e (Creation.add_images rt store product payload.images) _
              (add_images-Avoids store product payload.images)
              λ _.
                Avoids-bind e (Creation.add_groups rt store product payload.variant_groups) _
                  (add_groups-Avoids store product payload.variant_groups)
                  λ _. Avoids-pure e product
