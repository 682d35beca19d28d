-- ===== src/Favorites/Removal.antt =====
-- Removing a favorite.
use boutique_backend.Prelude.{
  ℕ, ◌≡◌, ◌≢◌, refl, Bool, false, true, List, [], ◌∷◌, exists, select, reject, ◌==◌, ℕ_eq,
  string_eq, arith,
}
use boutique_backend.Models.{Boutique, User, Favorite}
use boutique_backend.Api.{ok, World}
use boutique_backend.Favorites.{is_favorite, remove_favorite}

reject-select-eq-nil : (p : Favorite → Bool) (fs : List Favorite) → exists p (reject p fs) ≡ false
reject-select-eq-nil p [] = refl
reject-select-eq-nil p (f ∷ fs) = ground (arith, reject-select-eq-nil p fs)

reject_again : (p : Favorite → Bool) (fs : List Favorite) → reject p (reject p fs) ≡ reject p fs
reject_again p [] = refl
reject_again p (f ∷ fs) = ground (arith, reject_again p fs)

reject_others :
    (p q : Favorite → Bool)
    → ((f : Favorite) → q f ≡ true → p f ≡ false)
    → (fs : List Favorite) → select q (reject p fs) ≡ select q fs
reject_others p q apart [] = refl
reject_others p q apart (f ∷ fs) = ground (arith, apart f, reject_others p q apart fs)

-- Removing a favorite twice is removing it once, no row of it is left, and the rows of every other
-- customer stay as they are.
pub remove_favorite_lem :
    (store : Boutique) (customer : User) (product_id : ℕ) (w : World) (other : User)
    → other.id ≢ customer.id
    → let w' = (remove_favorite store customer product_id w).1 in
      (remove_favorite store customer product_id w' ≡ (ok tt, w'))
      × (exists (is_favorite store customer product_id) w'.db.favorites ≡ false)
      × (select (λ f. f.customer == other.id) w'.db.favorites
          ≡ select (λ f. f.customer == other.id) w.db.favorites)
unfolding remove_favorite
remove_favorite_lem store customer product_id w other differs =
    let p = is_favorite store customer product_id in
    (
      rw (reject_again p w.db.favorites) refl,
      reject-select-eq-nil p w.db.favorites,
      reject_others p (λ f. f.customer == other.id) (λ f h. ground arith) w.db.favorites,
    )
