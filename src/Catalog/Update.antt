-- ===== src/Catalog/Update.antt =====
-- The unique constraints of the catalog, kept by a change of a product and by a deletion.
use boutique_backend.Prelude.{
  ℕ, ◌+◌, ◌≡◌, refl, sym, ap, true, none, List, [], ◌∷◌, select, modify, reject, inl, inr,
  Bool-cases, ◌==◌, ◌&&◌, ℕ_eq, string_eq, arith,
}
use boutique_backend.Prelude.Int.{pos}
use boutique_backend.Prelude.Members.{In, In-select, select_of_In}
use boutique_backend.Prelude.Constraints.{IsDistinct, modify-IsDistinct, reject-IsDistinct}
use boutique_backend.Models.{Boutique, Db, Catalog, Product}
use boutique_backend.Api.{
  ok, err, Result, World, Runtime, Action, ◌>>=◌, reads, lift, draw, and_then, varchar,
  positive_integer, get_object_or_404,
}
use boutique_backend.Api.Keeps.{Keeps}
use boutique_backend.Catalog.Creation
use boutique_backend.Catalog.Creation.Constraints.{CatalogIsUnique}
use boutique_backend.Catalog.Frame.{delete_product-Keeps}
use boutique_backend.Catalog.Writes.{
  ProductUpdate, store_product, new_category, assigned, save_product, update_product, is_image_of,
  is_group_of, is_option_of, shows_image_of, catalog_without, without_product, delete_product,
}

-- An action that turns one property of the database into another, whether it returns or raises.
record Turns {A : Type 0} (P Q : Db → Type 0) (m : Action A) : Type 0 where
  at : (w : World) → P w.db → Q (m w).1.db

module _ {A B : Type 0} {P Q : Db → Type 0} (weaken : (db : Db) → P db → Q db) where
  checked :
      (r : Result A) (f : A → Action B)
      → ((a : A) → Turns P Q (f a))
      → (w : World) → P w.db
      → Q ((lift r >>= f) w).1.db
  checked (ok a) f k w h = (k a).at w h
  checked (err e) f k w h = weaken w.db h

  Turns-check :
      (r : Result A) (f : A → Action B) → ((a : A) → Turns P Q (f a)) → Turns P Q (lift r >>= f)
  Turns-check r f k = record { at = checked r f k }

  Turns-read :
      (q : Db → Result A) (f : A → Action B)
      → ((a : A) → Turns P Q (f a))
      → Turns P Q (reads q >>= f)
  Turns-read q f k = record { at = λ w. checked (q w.db) f k w }

  found_end :
      (q : Db → Result A) (f : A → Action B) (w : World)
      → P w.db
      → (r : Result A) → ((a : A) → r ≡ ok a → Q (f a w).1.db)
      → Q ((lift r >>= f) w).1.db
  found_end q f w h (ok a) k = k a refl
  found_end q f w h (err e) k = weaken w.db h

  -- A query, and what it found, in front of the rest of a block.
  Turns-found :
      (q : Db → Result A) (f : A → Action B)
      → ((a : A) → Turns (λ db. P db × (q db ≡ ok a)) Q (f a))
      → Turns P Q (reads q >>= f)
  Turns-found q f k = record { at = λ w h. found_end q f w h (q w.db) (λ a e. (k a).at w (h, e)) }

Keeps_of_Turns : {A : Type 0} {P : Db → Type 0} {m : Action A} → Turns P P m → Keeps P m
Keeps_of_Turns t = record { at = t.at }

Turns-drawn :
    {B : Type 0} {P Q : Db → Type 0} (f : ℕ → Action B)
    → ((n : ℕ) → Turns P Q (f n))
    → Turns P Q (draw >>= f)
Turns-drawn f k = record { at = λ w. (k w.draws).at (record w { draws = w.draws + 1 }) }

-- The query answers a row of the table.
row_of_store_product :
    (store : Boutique) (product_id : ℕ) (c : Catalog) (p : Product)
    → store_product store product_id c ≡ ok p
    → In p c.products
unfolding store_product get_object_or_404
row_of_store_product store product_id c p h =
    let fits = λ (r : Product). r.store == store.id && r.id == product_id in
    let only : select fits c.products ≡ p ∷ [] = ground arith in
    ((In-select fits p c.products).0 (rw only (inl refl))).0

-- One row for an id.
same_id :
    (id : ℕ) (x y : Product)
    → (x.id == id) ≡ true
    → (y.id == id) ≡ true
    → Creation.clash_product x y ≡ true
same_id id x y hx hy = ground arith

same_row :
    (p q : Product) (rows : List Product)
    → IsDistinct Creation.clash_product rows
    → In p rows
    → In q rows
    → (q.id == p.id) ≡ true
    → q ≡ p
same_row p q rows d i j same =
    let own : (p.id == p.id) ≡ true = ground arith in
    let one : select (λ r. r.id == p.id) rows ≡ p ∷ [] =
      select_of_In (λ r. r.id == p.id) Creation.clash_product (same_id p.id) p rows d i own in
    let other : select (λ r. r.id == p.id) rows ≡ q ∷ [] =
      select_of_In (λ r. r.id == p.id) Creation.clash_product (same_id p.id) q rows d j same in
    ground (arith, one, other)

-- The columns of `saved`, but for those that the constraints name.
abbrev with_columns : Product → Product → Product
with_columns saved p = record saved { id = p.id; store = p.store; slug = p.slug }

modify_same :
    (saved : Product) (rows : List Product)
    → ((q : Product) → In q rows → (q.id == saved.id) ≡ true → with_columns saved q ≡ saved)
    → modify (λ r. r.id == saved.id) (λ r. saved) rows
      ≡ modify (λ r. r.id == saved.id) (with_columns saved) rows
modify_same saved [] same = refl
modify_same saved (q ∷ qs) same = elim (Bool-cases (q.id == saved.id)) [
  | inl e ↦ rw (e, same q (inl refl) e, modify_same saved qs (λ r i. same r (inr i))) refl
  | inr e ↦ rw (e, modify_same saved qs (λ r i. same r (inr i))) refl
]

-- The database that a change starts from, and the product that it found.
abbrev IsFound : Boutique → ℕ → Product → Db → Type 0
IsFound store product_id p db =
    CatalogIsUnique db × (store_product store product_id db.catalog ≡ ok p)

-- The new columns of a row are not those of a constraint.
save_product-Turns :
    (store : Boutique) (product_id : ℕ) (p saved : Product)
    → with_columns saved p ≡ saved
    → Turns (IsFound store product_id p) CatalogIsUnique (save_product saved)
unfolding save_product
save_product-Turns store product_id p saved same = record {
  at = λ w (unique, found).
      let row = row_of_store_product store product_id w.db.catalog p found in
      let rows = w.db.products in
      let id : saved.id ≡ p.id = sym (ap (λ (r : Product). r.id) same) in
      record {
        categories = unique.categories;
        products =
            rw
              (modify_same saved rows
                (λ q i e. rw (same_row p q rows unique.products row i (rw (← id) e)) same))
              (modify-IsDistinct Creation.clash_product (λ r. r.id == saved.id) (with_columns saved)
                (λ x y. refl) (λ x y. refl) rows unique.products);
        images = unique.images;
        groups = unique.groups;
        options = unique.options;
      };
}

-- A change of a product, whatever fields it sets and whether it returns or raises, keeps the unique
-- constraints of the catalog.
pub update_product-CatalogIsUnique :
    (rt : Runtime) (store : Boutique) (product_id : ℕ) (payload : ProductUpdate)
    → Keeps CatalogIsUnique (update_product rt store product_id payload)
unfolding update_product
update_product-CatalogIsUnique rt store product_id payload = Keeps_of_Turns (
    Turns-found (λ db h. h) (λ db. store_product store product_id db.catalog) _
      λ product.
        let weaken = λ (db : Db) (k : IsFound store product_id product db). k.0 in
        Turns-read weaken (λ db. new_category store payload.category_slug product db.catalog) _
          λ category.
            Turns-check weaken (and_then (assigned payload.name product.name) (varchar 255)) _
              λ name.
                Turns-check weaken (assigned payload.description product.description) _
                  λ description.
                    Turns-check weaken
                      (and_then (assigned payload.price (pos product.price)) positive_integer) _
                      λ price.
                        Turns-check weaken (assigned payload.is_featured product.is_featured) _
                          λ is_featured.
                            Turns-check weaken (assigned payload.is_visible product.is_visible) _
                              λ is_visible. Turns-drawn _ λ n.
                                save_product-Turns store product_id product
                                  (record product {
                                    category = category;
                                    name = name;
                                    description = description;
                                    price = price;
                                    is_featured = is_featured;
                                    is_visible = is_visible;
                                    updated_at = rt.now n;
                                  })
                                  refl)

pub without-CatalogIsUnique :
    (id : ℕ) (db : Db) → CatalogIsUnique db → CatalogIsUnique (without_product id db)
unfolding without_product catalog_without
without-CatalogIsUnique id db h = record {
  categories = h.categories;
  products = reject-IsDistinct Creation.clash_product (λ p. p.id == id) db.products h.products;
  images = reject-IsDistinct Creation.clash_image (is_image_of id) db.images h.images;
  groups = reject-IsDistinct Creation.clash_group (is_group_of id) db.groups h.groups;
  options =
      modify-IsDistinct Creation.clash_option (shows_image_of db.images id)
        (λ o. record o { image = none }) (λ x y. refl) (λ x y. refl)
        (reject (is_option_of db.groups id) db.options)
        (reject-IsDistinct Creation.clash_option (is_option_of db.groups id) db.options h.options);
}

-- A deletion keeps the unique constraints of the catalog.
pub delete_product-CatalogIsUnique :
    (store : Boutique) (product_id : ℕ) → Keeps CatalogIsUnique (delete_product store product_id)
delete_product-CatalogIsUnique store product_id =
    delete_product-Keeps store product_id (without-CatalogIsUnique product_id)
