-- ===== src/Catalog/Frame.antt =====
-- What keeps a property of the database through a change and the deletion of a product: what no write
-- of the tables that these touch can break.
use boutique_backend.Prelude.{ℕ, modify, ◌==◌, ℕ_eq, ◌≡◌, refl, inl, select, ◌&&◌, [], ◌∷◌, arith}
use boutique_backend.Prelude.Members.{In-select}
use boutique_backend.Prelude.Int.{pos}
use boutique_backend.Models.{Boutique, Db, Catalog, Product}
use boutique_backend.Api.{
  World, Result, ok, err, lift, ◌>>=◌, get_object_or_404, Runtime, reads, modify_db, and_then,
  varchar, positive_integer,
}
use boutique_backend.Api.Keeps.{
  Keeps, Keeps-pure, Keeps-reads, Keeps-modify_db, Keeps-bind, Keeps-check, Keeps-drawn,
}
use boutique_backend.Catalog.Writes.{
  ProductUpdate, store_product, new_category, assigned, save_product, update_product,
  without_product, delete_product,
}

module _ {P : Db → Type 0}
    (free : (db : Db) (c : Catalog) → P db → P (record db { catalog = c })) where
  save_product-Keeps : (p : Product) → Keeps P (save_product p)
  unfolding save_product
  save_product-Keeps p =
      Keeps-bind (modify_db _) _
        (Keeps-modify_db
          (λ db. record db {
            catalog = record db.catalog {
              products = modify (λ r. r.id == p.id) (λ r. p) db.products;
            };
          })
          (λ db. free db _))
        λ _. Keeps-pure p

  pub update_product-Keeps :
      (rt : Runtime) (store : Boutique) (product_id : ℕ) (payload : ProductUpdate)
      → Keeps P (update_product rt store product_id payload)
  unfolding update_product
  update_product-Keeps rt store product_id payload =
      Keeps-bind (reads (λ db. store_product store product_id db.catalog)) _
        (Keeps-reads (λ db. store_product store product_id db.catalog))
        λ (product : Product).
          Keeps-bind (reads (λ db. new_category store payload.category_slug product db.catalog)) _
            (Keeps-reads (λ db. new_category store payload.category_slug product db.catalog))
            λ category.
              Keeps-check P (and_then (assigned payload.name product.name) (varchar 255)) _ λ name.
                Keeps-check P (assigned payload.description product.description) _ λ description.
                  Keeps-check P
                    (and_then (assigned payload.price (pos product.price)) positive_integer) _
                    λ price.
                      Keeps-check P (assigned payload.is_featured product.is_featured) _
                        λ is_featured.
                          Keeps-check P (assigned payload.is_visible product.is_visible) _
                            λ is_visible. Keeps-drawn P _ λ n. save_product-Keeps (record product {
                              category = category;
                              name = name;
                              description = description;
                              price = price;
                              is_featured = is_featured;
                              is_visible = is_visible;
                              updated_at = rt.now n;
                            })

-- The query answers a product with the id.
id_of_store_product :
    (store : Boutique) (product_id : ℕ) (c : Catalog) (p : Product)
    → store_product store product_id c ≡ ok p
    → p.id ≡ product_id
unfolding store_product get_object_or_404
id_of_store_product store product_id c p h =
    let fits = λ (r : Product). r.store == store.id && r.id == product_id in
    let only : select fits c.products ≡ p ∷ [] = ground arith in
    let own = ((In-select fits p c.products).0 (rw only (inl refl))).1 in ground arith

deletion_end :
    {P : Db → Type 0} (product_id : ℕ) (w : World)
    → P w.db
    → ((db : Db) → P db → P (without_product product_id db))
    → (r : Result Product) → ((p : Product) → r ≡ ok p → p.id ≡ product_id)
    → P ((lift r >>= λ p. modify_db (without_product p.id)) w).1.db
deletion_end product_id w h without (ok p) same = rw (same p refl) (without w.db h)
deletion_end product_id w h without (err e) same = h

-- A deletion, row by row.
pub delete_product-Keeps :
    {P : Db → Type 0} (store : Boutique) (product_id : ℕ)
    → ((db : Db) → P db → P (without_product product_id db))
    → Keeps P (delete_product store product_id)
unfolding delete_product
delete_product-Keeps store product_id without = record {
  at = λ w h.
      deletion_end product_id w h without (store_product store product_id w.db.catalog)
        (λ p e. id_of_store_product store product_id w.db.catalog p e);
}
