-- ===== src/Favorites/Laws.antt =====
-- Favoriting returns a row of the customer's, the same one each time.
use boutique_backend.Prelude.{
  ℕ, ◌+◌, ◌≡◌, refl, ◌∙◌, inl, inr, true, List, [], ◌∷◌, ◌++◌, exists, select, ◌==◌, ◌&&◌, ℕ_eq,
  string_eq, arith, Bool-cases,
}
use boutique_backend.Prelude.Members.{In, In-select, select_of_In}
use boutique_backend.Models.{Boutique, User, Favorite, Product, Catalog, Db}
use boutique_backend.Api.Returns.{Returns, Returns-raise, Returns-atomic, Returns-bind}
use boutique_backend.Api.{
  Action, ◌>>=◌, Result, ok, err, integrity_error, does_not_exist, World, Runtime, get_object,
  get_object_or_404, modify_db, reads, raise, lift, atomic,
}
use boutique_backend.Api.Bind.{bind_of_ok}
use boutique_backend.Orders.{visible_product}
use boutique_backend.Orders.Recovery.{Returns-on_integrity_error}
use boutique_backend.Favorites.{
  clash_favorite, is_favorite, insert_favorite, on_does_not_exist, favorite_of, new_favorite,
  create_favorite, get_or_create_favorite, add_favorite,
}
use boutique_backend.Favorites.Constraint.{FavoritesAreUnique}

-- What `get_or_create` promises: a row of the customer's for the product, which the table has.
abbrev pub Kept : Boutique → User → ℕ → Favorite → Db → Type 0
Kept store customer product_id f db =
    (is_favorite store customer product_id f ≡ true) × In f db.favorites

module _ {A : Type 0} where
  missing_end :
      (Q : A → Db → Type 0) (handler : Action A) (a : A) (p : Result A × World)
      → ((b : A) → p.0 ≡ ok b → Q b p.1.db)
      → Returns Q handler
      → (w : World) → (on_does_not_exist (λ (v : World). p) handler w).0 ≡ ok a
      → Q a (on_does_not_exist (λ (v : World). p) handler w).1.db
  missing_end Q handler a (ok b, w') k r w h = k a h
  missing_end Q handler a (err does_not_exist, w') k r w h = r.at w' a h
  missing_end Q handler a (err e, w') k r w h = absurd (ground arith)

  Returns-on_does_not_exist :
      {Q : A → Db → Type 0} (m handler : Action A)
      → Returns Q m
      → Returns Q handler
      → Returns Q (on_does_not_exist m handler)
  Returns-on_does_not_exist {Q = Q} m handler k r = record {
    at = λ w a h. missing_end Q handler a (m w) (k.at w) r w h;
  }

module _ (store : Boutique) (customer : User) (product_id : ℕ) where
  only_of_get :
      (f : Favorite) (w : World)
      → favorite_of store customer product_id w.db ≡ ok f
      → select (is_favorite store customer product_id) w.db.favorites ≡ f ∷ []
  unfolding favorite_of get_object
  only_of_get f w h = ground arith

  favorite_of_row :
      (w : World) (f : Favorite)
      → FavoritesAreUnique w.db
      → In f w.db.favorites
      → is_favorite store customer product_id f ≡ true
      → favorite_of store customer product_id w.db ≡ ok f
  unfolding favorite_of get_object
  favorite_of_row w f unique row own =
      rw
        (select_of_In (is_favorite store customer product_id) clash_favorite
          (λ x y hx hy. ground arith) f w.db.favorites unique row own)
        refl

  only_of_visible :
      (c : Catalog) (p : Product)
      → visible_product c store product_id ≡ ok p
      → select
          (λ (r : Product). r.store == store.id && (r.id == product_id && r.is_visible))
          c.products
        ≡ p ∷ []
  unfolding visible_product get_object_or_404
  only_of_visible c p h = ground arith

  favorite_of_lem :
      Returns (Kept store customer product_id) (reads (favorite_of store customer product_id))
  favorite_of_lem = record {
    at = λ w f h.
        let (row, fits) =
          (In-select (is_favorite store customer product_id) f w.db.favorites).0
            (rw (only_of_get f w h) (inl refl)) in
        (fits, row);
  }

  last_In : (f : Favorite) (fs : List Favorite) → In f (fs ++ f ∷ [])
  last_In f [] = inl refl
  last_In f (g ∷ gs) = inr (last_In f gs)

  inserted_Kept :
      (f g : Favorite) (w : World)
      → is_favorite store customer product_id f ≡ true
      → (insert_favorite f w).0 ≡ ok g
      → Kept store customer product_id g (insert_favorite f w).1.db
  unfolding insert_favorite
  inserted_Kept f g w fits h = elim (Bool-cases (exists (clash_favorite f) w.db.favorites)) [
    | inl e ↦ absurd (ground arith)
    | inr e ↦ rw e (ground arith, ground (arith, last_In f w.db.favorites))
  ]

  module _ (rt : Runtime) where
    create_favorite_lem :
        Returns (Kept store customer product_id) (create_favorite rt store customer product_id)
    unfolding create_favorite
    create_favorite_lem = record {
      at = λ w f h.
          inserted_Kept (new_favorite rt w.draws store customer product_id) f
            (record w { draws = w.draws + 1 }) (ground arith) h;
    }

    get_or_create_lem :
        (others : Db → Db)
        → Returns
            (Kept store customer product_id)
            (get_or_create_favorite rt others store customer product_id)
    unfolding get_or_create_favorite
    get_or_create_lem others =
        Returns-on_does_not_exist (reads (favorite_of store customer product_id)) _ favorite_of_lem
          (Returns-bind (modify_db others) _ λ _.
            Returns-on_integrity_error (atomic (create_favorite rt store customer product_id)) _
              (Returns-atomic (create_favorite rt store customer product_id) create_favorite_lem)
              (Returns-on_does_not_exist (reads (favorite_of store customer product_id))
                (raise integrity_error) favorite_of_lem (Returns-raise integrity_error)))

    pub visible_id :
        (c : Catalog) (p : Product) → visible_product c store product_id ≡ ok p → p.id ≡ product_id
    unfolding visible_product get_object_or_404
    visible_id c p h =
        let fits = λ (r : Product). r.store == store.id && (r.id == product_id && r.is_visible) in
        let (row, fit) = (In-select fits p c.products).0 (rw (only_of_visible c p h) (inl refl)) in
        ground arith

    add_favorite_end :
        (others : Db → Db) (w : World) (f : Favorite) (r : Result Product)
        → ((p : Product) → r ≡ ok p → p.id ≡ product_id)
        → ((lift r >>= λ p. get_or_create_favorite rt others store customer p.id) w).0 ≡ ok f
        → Kept store customer product_id f
            ((lift r >>= λ p. get_or_create_favorite rt others store customer p.id) w).1.db
    add_favorite_end others w f (ok p) same h =
        let e = same p refl in rw e ((get_or_create_lem others).at w f (rw e at h))
    add_favorite_end others w f (err e) same h = absurd (ground arith)

-- A favorite that `add_favorite` returns is a row of the customer's for that product at that store,
-- in the database that it leaves, whatever other requests commit in the middle.
pub add_favorite_lem :
    (rt : Runtime) (others : Db → Db) (store : Boutique) (customer : User) (product_id : ℕ)
    (w : World) (f : Favorite)
    → (add_favorite rt others store customer product_id w).0 ≡ ok f
    → (is_favorite store customer product_id f ≡ true)
      × In f (add_favorite rt others store customer product_id w).1.db.favorites
unfolding add_favorite
add_favorite_lem rt others store customer product_id w f h =
    add_favorite_end store customer product_id rt others w f
      (visible_product w.db.catalog store product_id)
      (visible_id store customer product_id rt w.db.catalog) h

found_at :
    (rt : Runtime) (others : Db → Db) (store : Boutique) (customer : User) (product_id : ℕ)
    (w : World) (f : Favorite)
    → favorite_of store customer product_id w.db ≡ ok f
    → get_or_create_favorite rt others store customer product_id w ≡ (ok f, w)
unfolding get_or_create_favorite
found_at rt others store customer product_id w f found = ground arith

add_favorite_found :
    (rt : Runtime) (others : Db → Db) (store : Boutique) (customer : User) (w : World) (p : Product)
    (f : Favorite) (product_id : ℕ)
    → visible_product w.db.catalog store product_id ≡ ok p
    → favorite_of store customer p.id w.db ≡ ok f
    → add_favorite rt others store customer product_id w ≡ (ok f, w)
unfolding add_favorite get_or_create_favorite
add_favorite_found rt others store customer w p f product_id shown found =
    bind_of_ok (reads (λ db. visible_product db.catalog store product_id))
      (λ (product : Product). get_or_create_favorite rt others store customer product.id) w p w
      (rw shown refl)
    ∙ found_at rt others store customer p.id w f found

-- While no two favorites are alike, favoriting a product once more returns the row that the first
-- call returned and leaves the world as it is, as long as the product can be seen.
pub add_favorite_again :
    (rt : Runtime) (others later : Db → Db) (store : Boutique) (customer : User) (product_id : ℕ)
    (w : World) (f : Favorite) (p : Product)
    → (add_favorite rt others store customer product_id w).0 ≡ ok f
    → FavoritesAreUnique (add_favorite rt others store customer product_id w).1.db
    → visible_product
        (add_favorite rt others store customer product_id w).1.db.catalog
        store
        product_id
      ≡ ok p
    → let w' = (add_favorite rt others store customer product_id w).1 in
      add_favorite rt later store customer product_id w' ≡ (ok f, w')
add_favorite_again rt others later store customer product_id w f p h unique shown =
    let w' = (add_favorite rt others store customer product_id w).1 in
    let (own, row) = add_favorite_lem rt others store customer product_id w f h in
    let same = visible_id store customer product_id rt w'.db.catalog p shown in
    add_favorite_found rt later store customer w' p f product_id shown
      (rw same (favorite_of_row store customer product_id w' f unique row own))
