-- ===== src/Favorites/Tests.antt =====
-- Runs of the favorites, and the theorems at concrete inputs.
use boutique_backend.Prelude.{◌≡◌, ◌↔◌, refl, true, [], ◌∷◌, exists, ℕ_eq}
use boutique_backend.Prelude.Members.{In}
use boutique_backend.Models.{Favorite}
use boutique_backend.Api.{ok, World, get_object, get_object_or_404}
use boutique_backend.Samples.{runtime, zita, customer, gown, opening}
use boutique_backend.Orders.{visible_product}
use boutique_backend.Favorites.{
  is_favorite, insert_favorite, favorite_of, create_favorite, get_or_create_favorite, add_favorite,
  remove_favorite, joined, own_favorites, favorite_products,
}
use boutique_backend.Favorites.Laws.{add_favorite_again}
use boutique_backend.Favorites.Constraint.{FavoritesAreUnique}
use boutique_backend.Favorites.Refinement.{likes, after_add, without_like, favorites_lem}
use boutique_backend.Favorites.Listing.{favorite_products_iff}

program : Unit {0}
unfolding insert_favorite favorite_of create_favorite get_or_create_favorite add_favorite
    visible_product get_object get_object_or_404 joined own_favorites favorite_products
program = tt

abbrev liked : Favorite
liked = record { id = 1000; customer = 10; store = 1; product = 40; created_at = 50 }

abbrev after : World
after = record opening { db = record opening.db { favorites = liked ∷ [] }; draws = 1 }

run-add_favorite : add_favorite runtime (λ db. db) zita customer 40 opening ≡ (ok liked, after)
unfolding program
run-add_favorite = refl

run-favorite_products : favorite_products zita customer after.db ≡ gown ∷ []
unfolding program
run-favorite_products = refl

run_unique : FavoritesAreUnique (add_favorite runtime (λ db. db) zita customer 40 opening).1.db
unfolding program
run_unique = (refl, tt)

run-visible_product :
    visible_product (add_favorite runtime (λ db. db) zita customer 40 opening).1.db.catalog zita 40
    ≡ ok gown
unfolding program
run-visible_product = refl

add_favorite_again_example :
    let w' = (add_favorite runtime (λ db. db) zita customer 40 opening).1 in
    add_favorite runtime (λ db. db) zita customer 40 w' ≡ (ok liked, w')
add_favorite_again_example =
    add_favorite_again runtime (λ db. db) (λ db. db) zita customer 40 opening liked gown
      (λ i. (run-add_favorite i).0) run_unique run-visible_product

favorites_lem_example :
    let added = add_favorite runtime (λ db. db) zita customer 40 opening in
    let removed = (remove_favorite zita customer 40 opening).1 in
    (likes added.1.db ≡ after_add customer.id zita.id 40 added.0 (likes opening.db))
    × (likes removed.db ≡ without_like customer.id zita.id 40 (likes opening.db))
favorites_lem_example = favorites_lem runtime zita customer 40 opening

favorite_products_iff_example : In gown (favorite_products zita customer after.db) ↔ (
    In gown after.db.products
    × (gown.is_visible ≡ true)
    × (exists (is_favorite zita customer gown.id) after.db.favorites ≡ true))
favorite_products_iff_example = favorite_products_iff zita customer after.db gown
