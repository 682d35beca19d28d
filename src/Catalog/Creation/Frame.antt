-- ===== src/Catalog/Creation/Frame.antt =====
-- What keeps a property of the database through the creation of categories and products, whatever
-- other requests commit in the middle.
use boutique_backend.Prelude.{
  ℕ, zero, suc, ◌&&◌, String, Bool, List, [], ◌∷◌, ◌++◌, exists, ◌==◌, ℕ_eq, string_eq, inl, inr,
  Bool-cases,
}
use boutique_backend.Prelude.Int.{ℤ}
use boutique_backend.Models.{
  Boutique, Db, Catalog, Category, Product, ProductImage, VariantGroup, VariantOption,
}
use boutique_backend.Api.{
  integrity_error, Runtime, raise, reads, gets, atomic, modify_db, positive_integer, varchar,
  get_object_or_404,
}
use boutique_backend.Api.Keeps.{
  Keeps, Keeps-pure, Keeps-raise, Keeps-reads, Keeps-gets, Keeps-if, Keeps-atomic, Keeps-modify_db,
  Keeps-bind, Keeps-check, Keeps-drawn,
}
use boutique_backend.Orders.Recovery.{Keeps-on_integrity_error}
use boutique_backend.Catalog.Creation

-- An INSERT into any table of the catalog keeps the property.
pub record Inserts (P : Db → Type 0) : Type 0 where
  pub category : (k : Category) → Keeps P (Creation.insert_category k)
  pub product : (p : Product) → Keeps P (Creation.insert_product p)
  pub image : (i : ProductImage) → Keeps P (Creation.insert_image i)
  pub group : (g : VariantGroup) → Keeps P (Creation.insert_group g)
  pub option : (o : VariantOption) → Keeps P (Creation.insert_option o)

-- What no write of the catalog can break.
module _ {P : Db → Type 0}
    (free : (db : Db) (c : Catalog) → P db → P (record db { catalog = c })) where
  insert_row-Keeps :
      {A : Type 0} (clash : A → A → Bool) (rows : Catalog → List A)
      (with_rows : List A → Catalog → Catalog) (a : A)
      → Keeps P (Creation.insert_row clash rows with_rows a)
  unfolding Creation.insert_row
  insert_row-Keeps clash rows with_rows a = record {
    at = λ w h. elim (Bool-cases (exists (clash a) (rows w.db.catalog))) [
      | inl hit ↦ rw hit h
      | inr fresh ↦ rw fresh (free w.db (with_rows (rows w.db.catalog ++ a ∷ []) w.db.catalog) h)
    ];
  }

  pub Inserts-free : Inserts P
  unfolding Creation.insert_category Creation.insert_product Creation.insert_image
      Creation.insert_group Creation.insert_option
  Inserts-free = record {
    category =
        insert_row-Keeps Creation.clash_category (λ c. c.categories)
          (λ l c. record c { categories = l });
    product =
        insert_row-Keeps Creation.clash_product (λ c. c.products)
          (λ l c. record c { products = l });
    image = insert_row-Keeps Creation.clash_image (λ c. c.images) (λ l c. record c { images = l });
    group = insert_row-Keeps Creation.clash_group (λ c. c.groups) (λ l c. record c { groups = l });
    option =
        insert_row-Keeps Creation.clash_option (λ c. c.options) (λ l c. record c { options = l });
  }

module _ {P : Db → Type 0} (inserts : Inserts P) (rt : Runtime) where
  pub add_category-Keeps :
      (store : Boutique) (name : String) (position : ℤ) (slug : String)
      → Keeps P (Creation.add_category rt store name position slug)
  unfolding Creation.add_category
  add_category-Keeps store name position slug = Keeps-drawn P _ λ n.
      Keeps-check P (varchar 255 name) _ λ _.
        Keeps-check P (varchar 255 slug) _
          λ _. Keeps-check P (positive_integer position) _ λ place. inserts.category _

  add_product-Keeps :
      (store : Boutique) (category : Category) (slug : String) (payload : Creation.ProductCreate)
      → Keeps P (Creation.add_product rt store category slug payload)
  unfolding Creation.add_product
  add_product-Keeps store category slug payload = Keeps-drawn P _ λ n.
      Keeps-check P (varchar 255 payload.name) _ λ _.
        Keeps-check P (varchar 255 slug) _
          λ _. Keeps-check P (positive_integer payload.price) _ λ price. inserts.product _

  add_images-Keeps :
      (store : Boutique) (product : Product) (is : List Creation.ImageIn)
      → Keeps P (Creation.add_images rt store product is)
  unfolding Creation.add_images Creation.add_image
  add_images-Keeps store product [] = Keeps-pure tt
  add_images-Keeps store product (i ∷ is) =
      Keeps-bind (Creation.add_image rt store product i) _
        (Keeps-drawn P _ λ n. Keeps-check P (varchar 500 i.url) _ λ _.
          Keeps-check P (varchar 255 i.alt) _
            λ _. Keeps-check P (positive_integer i.position) _ λ place. inserts.image _)
        λ _. add_images-Keeps store product is

  add_options-Keeps :
      (store : Boutique) (group : VariantGroup) (os : List Creation.OptionIn)
      → Keeps P (Creation.add_options rt store group os)
  unfolding Creation.add_options Creation.add_option
  add_options-Keeps store group [] = Keeps-pure tt
  add_options-Keeps store group (o ∷ os) =
      Keeps-bind (Creation.add_option rt store group o) _
        (Keeps-drawn P _ λ n. Keeps-check P (varchar 100 o.value) _ λ _.
          Keeps-check P (varchar 7 o.hex) _
            λ _. Keeps-check P (positive_integer o.position) _ λ place. inserts.option _)
        λ _. add_options-Keeps store group os

  add_groups-Keeps :
      (store : Boutique) (product : Product) (gs : List Creation.GroupIn)
      → Keeps P (Creation.add_groups rt store product gs)
  unfolding Creation.add_groups Creation.add_group
  add_groups-Keeps store product [] = Keeps-pure tt
  add_groups-Keeps store product (g ∷ gs) =
      Keeps-bind (Creation.add_group rt store product g) _
        (Keeps-drawn P _ λ n.
          Keeps-check P (varchar 100 g.name) _
            λ _. Keeps-check P (positive_integer g.position) _ λ place. inserts.group _)
        λ group.
          Keeps-bind (Creation.add_options rt store group g.options) _
            (add_options-Keeps store group g.options) λ _. add_groups-Keeps store product gs

  pub build_product-Keeps :
      (store : Boutique) (category : Category) (slug : String) (payload : Creation.ProductCreate)
      → Keeps P (Creation.build_product rt store category slug payload)
  unfolding Creation.build_product
  build_product-Keeps store category slug payload =
      Keeps-bind (Creation.add_product rt store category slug payload) _
        (add_product-Keeps store category slug payload)
        λ product.
          Keeps-bind (Creation.add_images rt store product payload.images) _
            (add_images-Keeps store product payload.images)
            λ _.
              Keeps-bind (Creation.add_groups rt store product payload.variant_groups) _
                (add_groups-Keeps store product payload.variant_groups) λ _. Keeps-pure product

-- The transactions are all that a creation writes itself.
module _ {P : Db → Type 0} (rt : Runtime) where
  attempts-Keeps :
      (slugify : String → String) (others : ℕ → Db → Db) (store : Boutique) (category : Category)
      (payload : Creation.ProductCreate)
      → ((c : Category) (slug : String) → Keeps P (Creation.build_product rt store c slug payload))
      → ((k : ℕ) (db : Db) → P db → P (others k db))
      → (rounds : ℕ) → Keeps P (Creation.attempts rt slugify others store category payload rounds)
  unfolding Creation.attempts
  attempts-Keeps slugify others store category payload build keep zero = Keeps-raise _
  attempts-Keeps slugify others store category payload build keep (suc k) =
      Keeps-bind (reads (Creation.product_slug slugify store payload.name)) _
        (Keeps-reads (Creation.product_slug slugify store payload.name))
        λ slug. Keeps-bind (modify_db (others k)) _ (Keeps-modify_db (others k) (keep k)) λ _.
          Keeps-on_integrity_error (atomic (Creation.build_product rt store category slug payload))
            (Creation.after_clash store slug
              (Creation.attempts rt slugify others store category payload k))
            (Keeps-atomic (Creation.build_product rt store category slug payload)
              (build category slug))
            (Keeps-bind (gets (λ db. exists (λ p. Creation.takes_product store p slug) db.products))
              _ (Keeps-gets (λ db. exists (λ p. Creation.takes_product store p slug) db.products))
              λ lost.
                Keeps-if lost (Creation.attempts rt slugify others store category payload k)
                  (raise integrity_error)
                  (attempts-Keeps slugify others store category payload build keep k)
                  (Keeps-raise integrity_error))

  pub create_product-Keeps :
      (slugify : String → String) (others : ℕ → Db → Db) (store : Boutique)
      (payload : Creation.ProductCreate)
      → ((c : Category) (slug : String) → Keeps P (Creation.build_product rt store c slug payload))
      → ((k : ℕ) (db : Db) → P db → P (others k db))
      → Keeps P (Creation.create_product rt slugify others store payload)
  unfolding Creation.create_product
  create_product-Keeps slugify others store payload build keep =
      Keeps-bind {P = P} (reads _) _
        (Keeps-reads λ db.
          get_object_or_404 (λ k. k.store == store.id && k.slug == payload.category_slug)
            db.categories)
        λ category. attempts-Keeps slugify others store category payload build keep 5

  pub create_category-Keeps :
      (slugify : String → String) (others : Db → Db) (store : Boutique) (name : String)
      (position : ℤ)
      → ((slug : String) → Keeps P (Creation.add_category rt store name position slug))
      → ((db : Db) → P db → P (others db))
      → Keeps P (Creation.create_category rt slugify others store name position)
  unfolding Creation.create_category
  create_category-Keeps slugify others store name position add keep =
      Keeps-bind {P = P} (reads (Creation.category_slug slugify store name)) _
        (Keeps-reads (Creation.category_slug slugify store name))
        λ slug. Keeps-bind (modify_db others) _ (Keeps-modify_db others keep) λ _. add slug
