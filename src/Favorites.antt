-- ===== src/Favorites.antt =====
-- src/apps/favorites: services.py, selectors.py and the controller.
pub mod Constraint
pub mod Laws
pub mod Removal
pub mod Refinement
pub mod Listing
mod Tests
use boutique_backend.Prelude.{
  ℕ, String, Bool, ◌&&◌, ◌||◌, Option, none, some, List, [], ◌∷◌, ◌++◌, select, reject, exists, ltb,
  ◌==◌, ℕ_eq, if◌then◌else◌,
}
use boutique_backend.Prelude.Sorting.{order_by}
use boutique_backend.Models.{Boutique, User, Db, Product, Favorite}
use boutique_backend.Api.{
  Error, integrity_error, does_not_exist, Result, ok, err, Runtime, Action, pure, raise, lift,
  reads, gets, atomic, ◌>>=◌, ◌>>◌, modify_db, draw, get_object, get_object_or_404,
}
use boutique_backend.Tenancy.{find_store, authenticate}
use boutique_backend.Orders.{visible_product, on_integrity_error}

-- The constraint `uniq_favorite`, and the primary key.
abbrev pub clash_favorite : Favorite → Favorite → Bool
clash_favorite a b =
    a.id == b.id || (a.customer == b.customer && (a.store == b.store && a.product == b.product))

abbrev pub is_favorite : Boutique → User → ℕ → Favorite → Bool
is_favorite store customer product_id f =
    f.customer == customer.id && (f.store == store.id && f.product == product_id)

unfoldable pub insert_favorite : Favorite → Action Favorite
insert_favorite f w =
    if exists (clash_favorite f) w.db.favorites
    then (err integrity_error, w)
    else (ok f, record w { db = record w.db { favorites = w.db.favorites ++ f ∷ [] } })

-- `except self.model.DoesNotExist`
abbrev pub on_does_not_exist : {A : Type 0} → Action A → Action A → Action A
on_does_not_exist m handler w =
    let (r, w') = m w in
    elim r [
      | ok a ↦ (ok a, w')
      | err e ↦ elim e [ does_not_exist ↦ handler w' | other ↦ (err other, w') ]
    ]

unfoldable pub favorite_of : Boutique → User → ℕ → Db → Result Favorite
favorite_of store customer product_id db =
    get_object (is_favorite store customer product_id) db.favorites

module _ (rt : Runtime) where
  abbrev pub new_favorite : ℕ → Boutique → User → ℕ → Favorite
  new_favorite n store customer product_id = record {
    id = rt.uuid4 n;
    customer = customer.id;
    store = store.id;
    product = product_id;
    created_at = rt.now n;
  }

  unfoldable pub create_favorite : Boutique → User → ℕ → Action Favorite
  unfolding insert_favorite
  create_favorite store customer product_id = do
    n ← draw
    insert_favorite (new_favorite n store customer product_id)

  -- `Favorite.objects.get_or_create`, where `others` is what other requests commit between its
  -- query and its INSERT.
  unfoldable pub get_or_create_favorite : (Db → Db) → Boutique → User → ℕ → Action Favorite
  get_or_create_favorite others store customer product_id =
      on_does_not_exist (reads (favorite_of store customer product_id)) (
        modify_db others
        >> on_integrity_error (atomic (create_favorite store customer product_id)) (
            on_does_not_exist (reads (favorite_of store customer product_id))
              (raise integrity_error)))

  unfoldable pub add_favorite : (Db → Db) → Boutique → User → ℕ → Action Favorite
  add_favorite others store customer product_id = do
    product ← reads (λ db. visible_product db.catalog store product_id)
    get_or_create_favorite others store customer product.id

unfoldable pub remove_favorite : Boutique → User → ℕ → Action (Unit {0})
remove_favorite store customer product_id =
    modify_db
      λ db. record db { favorites = reject (is_favorite store customer product_id) db.favorites }

-- The join of the favorites with the products: a product for each favorite, as the favorites are
-- ordered.
unfoldable pub joined : List Product → List Favorite → List Product
joined products [] = []
joined products (f ∷ fs) =
    select (λ p. p.id == f.product && p.is_visible) products ++ joined products fs

-- The rows of one customer at one store, newest first.
unfoldable pub own_favorites : Boutique → User → List Favorite → List Favorite
own_favorites store customer favorites =
    order_by (λ later f. ltb f.created_at later.created_at)
      (select (λ f. f.customer == customer.id && f.store == store.id) favorites)

unfoldable pub favorite_products : Boutique → User → Db → List Product
favorite_products store customer db = joined db.products (own_favorites store customer db.favorites)

-- `FavoritesController.my_favorites`
unfoldable pub my_favorites : Option User → String → Action (List Product)
my_favorites auth slug = do
  customer ← lift (authenticate auth)
  store ← reads (find_store slug)
  gets (favorite_products store customer)

-- `FavoritesController.add`; `favorite.product` reads the product's row.
unfoldable pub add : Runtime → (Db → Db) → Option User → String → ℕ → Action (ℕ × Product)
add rt others auth slug product_id = do
  customer ← lift (authenticate auth)
  store ← reads (find_store slug)
  favorite ← add_favorite rt others store customer product_id
  product ← reads (λ db. get_object (λ p. p.id == favorite.product) db.products)
  pure (201, product)

-- `FavoritesController.remove`
unfoldable pub remove : Option User → String → ℕ → Action ℕ
remove auth slug product_id = do
  customer ← lift (authenticate auth)
  store ← reads (find_store slug)
  remove_favorite store customer product_id
  pure 204
