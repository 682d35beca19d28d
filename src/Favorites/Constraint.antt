-- ===== src/Favorites/Constraint.antt =====
-- The constraint `uniq_favorite`, kept by `add_favorite` on every branch.
use boutique_backend.Prelude.{
  List, [], ◌∷◌, ◌++◌, exists, reject, inl, inr, Bool-cases, ℕ, ◌≡◌, ℕ_eq, string_eq, arith,
}
use boutique_backend.Prelude.Constraints.{IsDistinct, append-IsDistinct, reject-IsDistinct}
use boutique_backend.Models.{Boutique, User, Favorite, Product, Db}
use boutique_backend.Api.{
  Action, Result, ok, err, integrity_error, does_not_exist, World, Runtime, modify_db, reads, raise,
  atomic, draw,
}
use boutique_backend.Api.Keeps.{
  Keeps, Keeps-raise, Keeps-reads, Keeps-atomic, Keeps-draw, Keeps-modify_db, Keeps-bind,
  Keeps-drawn,
}
use boutique_backend.Orders.{visible_product}
use boutique_backend.Orders.Recovery.{Keeps-on_integrity_error}
use boutique_backend.Favorites.{
  clash_favorite, insert_favorite, on_does_not_exist, favorite_of, new_favorite, create_favorite,
  get_or_create_favorite, add_favorite, remove_favorite, is_favorite,
}

-- One row for a customer, a store and a product, and for an id.
abbrev pub FavoritesAreUnique : Db → Type 0
FavoritesAreUnique db = IsDistinct clash_favorite db.favorites

clash_favorite_comm : (a b : Favorite) → clash_favorite a b ≡ clash_favorite b a
clash_favorite_comm a b = ground arith

insert_favorite-FavoritesAreUnique : (f : Favorite) → Keeps FavoritesAreUnique (insert_favorite f)
unfolding insert_favorite
insert_favorite-FavoritesAreUnique f = record {
  at = λ w h.
      ground (arith, append-IsDistinct clash_favorite clash_favorite_comm f w.db.favorites h);
}

pub create_favorite-FavoritesAreUnique :
    (rt : Runtime) (store : Boutique) (customer : User) (product_id : ℕ)
    → Keeps FavoritesAreUnique (create_favorite rt store customer product_id)
unfolding create_favorite
create_favorite-FavoritesAreUnique rt store customer product_id =
    Keeps-bind draw (λ n. insert_favorite (new_favorite rt n store customer product_id)) Keeps-draw
      λ n. insert_favorite-FavoritesAreUnique (new_favorite rt n store customer product_id)

-- What no write of favorites can break, and what is left of the constraint by a removal.
module _ {P : Db → Type 0}
    (free : (db : Db) (favorites : List Favorite)
      → P db
      → P (record db { favorites = favorites })) where
  insert_favorite-Keeps : (f : Favorite) → Keeps P (insert_favorite f)
  unfolding insert_favorite
  insert_favorite-Keeps f = record {
    at = λ w h. elim (Bool-cases (exists (clash_favorite f) w.db.favorites)) [
      | inl hit ↦ rw hit h
      | inr fresh ↦ rw fresh (free w.db (w.db.favorites ++ f ∷ []) h)
    ];
  }

  pub create_favorite-Keeps :
      (rt : Runtime) (store : Boutique) (customer : User) (product_id : ℕ)
      → Keeps P (create_favorite rt store customer product_id)
  unfolding create_favorite
  create_favorite-Keeps rt store customer product_id =
      Keeps-drawn P _ λ n. insert_favorite-Keeps (new_favorite rt n store customer product_id)

  pub remove_favorite-Keeps :
      (store : Boutique) (customer : User) (product_id : ℕ)
      → Keeps P (remove_favorite store customer product_id)
  unfolding remove_favorite
  remove_favorite-Keeps store customer product_id =
      Keeps-modify_db
        (λ db. record db {
          favorites = reject (is_favorite store customer product_id) db.favorites;
        })
        (λ db. free db (reject (is_favorite store customer product_id) db.favorites))

pub remove_favorite-FavoritesAreUnique :
    (store : Boutique) (customer : User) (product_id : ℕ)
    → Keeps FavoritesAreUnique (remove_favorite store customer product_id)
unfolding remove_favorite
remove_favorite-FavoritesAreUnique store customer product_id =
    Keeps-modify_db
      (λ db. record db { favorites = reject (is_favorite store customer product_id) db.favorites })
      (λ db. reject-IsDistinct clash_favorite (is_favorite store customer product_id) db.favorites)

module _ {A : Type 0} where
  Keeps-on_does_not_exist :
      {P : Db → Type 0} (m handler : Action A)
      → Keeps P m
      → Keeps P handler
      → Keeps P (on_does_not_exist m handler)
  Keeps-on_does_not_exist {P = P} m handler k r = record {
    at = λ w h. missing_keeps P handler r (m w) (k.at w h) w;
  }
    where
      missing_keeps :
          (P : Db → Type 0) (handler : Action A)
          → Keeps P handler
          → (p : Result A × World) → P p.1.db
          → (w : World) → P (on_does_not_exist (λ (v : World). p) handler w).1.db
      missing_keeps P handler r (ok b, w') k w = k
      missing_keeps P handler r (err does_not_exist, w') k w = r.at w' k
      missing_keeps P handler r (err e, w') k w = k

-- The INSERT is all that `add_favorite` writes itself.
pub add_favorite-Keeps :
    {P : Db → Type 0} (rt : Runtime) (others : Db → Db) (store : Boutique) (customer : User)
    (product_id : ℕ)
    → ((id : ℕ) → Keeps P (create_favorite rt store customer id))
    → ((db : Db) → P db → P (others db))
    → Keeps P (add_favorite rt others store customer product_id)
unfolding add_favorite get_or_create_favorite
add_favorite-Keeps {P = P} rt others store customer product_id create keep =
    Keeps-bind {P = P} (reads (λ db. visible_product db.catalog store product_id)) _
      (Keeps-reads (λ db. visible_product db.catalog store product_id))
      λ (p : Product).
        let again = Keeps-reads {P = P} (favorite_of store customer p.id) in
        Keeps-on_does_not_exist (reads (favorite_of store customer p.id)) _ again (
          Keeps-bind (modify_db others) _ (Keeps-modify_db others keep) λ _.
            Keeps-on_integrity_error (atomic (create_favorite rt store customer p.id)) _
              (Keeps-atomic (create_favorite rt store customer p.id) (create p.id))
              (Keeps-on_does_not_exist (reads (favorite_of store customer p.id))
                (raise integrity_error) again (Keeps-raise integrity_error)))

-- No call of `add_favorite` breaks the constraint, as long as what other requests commit in the
-- middle keeps it.
pub add_favorite-FavoritesAreUnique :
    (rt : Runtime) (others : Db → Db) (store : Boutique) (customer : User) (product_id : ℕ)
    → ((db : Db) → FavoritesAreUnique db → FavoritesAreUnique (others db))
    → (w : World) → FavoritesAreUnique w.db
    → FavoritesAreUnique (add_favorite rt others store customer product_id w).1.db
add_favorite-FavoritesAreUnique rt others store customer product_id keep =
    (add_favorite-Keeps rt others store customer product_id
      (create_favorite-FavoritesAreUnique rt store customer) keep).at
