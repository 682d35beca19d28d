-- ===== src/Favorites/Refinement.antt =====
-- The favorites as a set: who likes what, where. The view forgets the order of the rows, their ids and
-- their dates.
use boutique_backend.Prelude.{
  ℕ, ◌+◌, ◌≡◌, refl, ◌∙◌, ap, inl, inr, Bool, true, not, ◌&&◌, ◌||◌, List, [], ◌∷◌, ◌++◌, exists,
  select, reject, Bool-cases, ◌==◌, ℕ_eq, arith,
}
use boutique_backend.Models.{Boutique, User, Favorite, Product, Db}
use boutique_backend.Api.{
  Error, Result, ok, err, integrity_error, does_not_exist, World, Runtime, Action, ◌>>=◌, lift,
  reads, raise, atomic, get_object,
}
use boutique_backend.Orders.{on_integrity_error, visible_product}
use boutique_backend.Favorites.{
  clash_favorite, is_favorite, insert_favorite, on_does_not_exist, favorite_of, new_favorite,
  create_favorite, get_or_create_favorite, add_favorite, remove_favorite,
}
use boutique_backend.Favorites.Laws.{visible_id}

-- A set of customer, store and product.
abbrev pub Likes : Type 0
Likes = ℕ → ℕ → ℕ → Bool

abbrev pub likes : Db → Likes
likes db c s p = exists (λ f. f.customer == c && (f.store == s && f.product == p)) db.favorites

abbrev pub with_like : ℕ → ℕ → ℕ → Likes → Likes
with_like c s p set c' s' p' = (c == c' && (s == s' && p == p')) || set c' s' p'

abbrev pub without_like : ℕ → ℕ → ℕ → Likes → Likes
without_like c s p set c' s' p' = not (c == c' && (s == s' && p == p')) && set c' s' p'

-- What an answer promises of the set: a favorite that is returned is in it, and an error leaves it alone.
abbrev pub after_add : ℕ → ℕ → ℕ → Result Favorite → Likes → Likes
after_add c s p (ok f) set = with_like c s p set
after_add c s p (err e) set = set

exists-last :
    (q : Favorite → Bool) (f : Favorite) (fs : List Favorite)
    → exists q (fs ++ f ∷ []) ≡ (q f || exists q fs)
exists-last q f [] = ground arith
exists-last q f (g ∷ gs) = ground (arith, exists-last q f gs)

exists-reject :
    (p q : Favorite → Bool) (b : Bool)
    → ((f : Favorite) → q f ≡ true → p f ≡ b)
    → (fs : List Favorite) → exists q (reject p fs) ≡ (not b && exists q fs)
exists-reject p q b same [] = ground arith
exists-reject p q b same (f ∷ fs) = ground (arith, same f, exists-reject p q b same fs)

module _ (store : Boutique) (customer : User) (product_id : ℕ) where
  abbrev promised : Result Favorite → Likes → Likes
  promised = after_add customer.id store.id product_id

  record Meets (m : Action Favorite) : Type 0 where
    at : (w : World) → likes (m w).1.db ≡ promised (m w).0 (likes w.db)

  Meets-raise : (e : Error) → Meets (raise e)
  Meets-raise e = record { at = λ w. refl }

  there :
      (fs : List Favorite) (f : Favorite)
      → select (is_favorite store customer product_id) fs ≡ f ∷ []
      → exists (is_favorite store customer product_id) fs ≡ true
  there [] f h = absurd (ground arith)
  there (g ∷ gs) f h = elim (Bool-cases (is_favorite store customer product_id g)) [
    | inl e ↦ rw e refl
    | inr e ↦ ground (arith, e, there gs f (ground (arith, h, e)))
  ]

  liked :
      (f : Favorite) (db : Db)
      → favorite_of store customer product_id db ≡ ok f
      → likes db customer.id store.id product_id ≡ true
  unfolding favorite_of get_object
  liked f db h = there db.favorites f (ground arith)

  already :
      (set : Likes)
      → set customer.id store.id product_id ≡ true
      → (c s p : ℕ) → set c s p ≡ with_like customer.id store.id product_id set c s p
  already set h c s p = elim (Bool-cases (customer.id == c && (store.id == s && product_id == p))) [
    | inl e ↦
        let same_c : customer.id ≡ c = ground arith in
        let same_s : store.id ≡ s = ground arith in
        let same_p : product_id ≡ p = ground arith in rw (e, ← same_c, ← same_s, ← same_p) h
    | inr e ↦ rw e refl
  ]

  read_end :
      (db : Db) (r : Result Favorite)
      → favorite_of store customer product_id db ≡ r
      → likes db ≡ promised r (likes db)
  read_end db (ok f) h = λ i c s p. already (likes db) (liked f db h) c s p i
  read_end db (err e) h = refl

  favorite_of-Meets : Meets (reads (favorite_of store customer product_id))
  favorite_of-Meets = record {
    at = λ w. read_end w.db (favorite_of store customer product_id w.db) refl;
  }

  missing_end :
      (handler : Action Favorite)
      → Meets handler
      → (set : Likes) (p : Result Favorite × World) → likes p.1.db ≡ promised p.0 set
      → (w : World)
      → likes (on_does_not_exist (λ (v : World). p) handler w).1.db
        ≡ promised (on_does_not_exist (λ (v : World). p) handler w).0 set
  missing_end handler k set (ok f, w') h w = h
  missing_end handler k set (err does_not_exist, w') h w = k.at w' ∙ ap (promised (handler w').0) h
  missing_end handler k set (err e, w') h w = h

  Meets-on_does_not_exist :
      (m handler : Action Favorite) → Meets m → Meets handler → Meets (on_does_not_exist m handler)
  Meets-on_does_not_exist m handler k l = record {
    at = λ w. missing_end handler l (likes w.db) (m w) (k.at w) w;
  }

  clash_end :
      (handler : Action Favorite)
      → Meets handler
      → (set : Likes) (p : Result Favorite × World) → likes p.1.db ≡ promised p.0 set
      → (w : World)
      → likes (on_integrity_error (λ (v : World). p) handler w).1.db
        ≡ promised (on_integrity_error (λ (v : World). p) handler w).0 set
  clash_end handler k set (ok f, w') h w = h
  clash_end handler k set (err integrity_error, w') h w = k.at w' ∙ ap (promised (handler w').0) h
  clash_end handler k set (err e, w') h w = h

  Meets-on_integrity_error :
      (m handler : Action Favorite) → Meets m → Meets handler → Meets (on_integrity_error m handler)
  Meets-on_integrity_error m handler k l = record {
    at = λ w. clash_end handler l (likes w.db) (m w) (k.at w) w;
  }

  atomic_end :
      (w : World) (p : Result Favorite × World)
      → likes p.1.db ≡ promised p.0 (likes w.db)
      → likes (atomic (λ (v : World). p) w).1.db
        ≡ promised (atomic (λ (v : World). p) w).0 (likes w.db)
  atomic_end w (ok f, w') h = h
  atomic_end w (err e, w') h = refl

  Meets-atomic : (m : Action Favorite) → Meets m → Meets (atomic m)
  Meets-atomic m k = record { at = λ w. atomic_end w (m w) (k.at w) }

  module _ (rt : Runtime) where
    insert_favorite-Meets :
        (n : ℕ) → Meets (insert_favorite (new_favorite rt n store customer product_id))
    unfolding insert_favorite
    insert_favorite-Meets n = record {
      at = λ w.
          let f = new_favorite rt n store customer product_id in
          elim (Bool-cases (exists (clash_favorite f) w.db.favorites)) [
            | inl hit ↦ rw hit refl
            | inr fresh ↦ rw fresh (λ i c s p.
                exists-last (λ g. g.customer == c && (g.store == s && g.product == p)) f
                  w.db.favorites i)
          ];
    }

    create_favorite-Meets : Meets (create_favorite rt store customer product_id)
    unfolding create_favorite
    create_favorite-Meets = record {
      at = λ w. (insert_favorite-Meets w.draws).at (record w { draws = w.draws + 1 });
    }

    get_or_create_favorite-Meets :
        Meets (get_or_create_favorite rt (λ db. db) store customer product_id)
    unfolding get_or_create_favorite
    get_or_create_favorite-Meets =
        let again =
          Meets-on_does_not_exist (reads (favorite_of store customer product_id))
            (raise integrity_error) favorite_of-Meets (Meets-raise integrity_error) in
        let insert =
          Meets-on_integrity_error (atomic (create_favorite rt store customer product_id)) _
            (Meets-atomic (create_favorite rt store customer product_id) create_favorite-Meets)
            again in
        Meets-on_does_not_exist (reads (favorite_of store customer product_id)) _ favorite_of-Meets
          (record { at = λ w. insert.at w })

    shown_end :
        (w : World) (r : Result Product)
        → ((p : Product) → r ≡ ok p → p.id ≡ product_id)
        → likes ((lift r >>= λ p. get_or_create_favorite rt (λ db. db) store customer p.id) w).1.db
          ≡ promised
              ((lift r >>= λ p. get_or_create_favorite rt (λ db. db) store customer p.id) w).0
              (likes w.db)
    shown_end w (ok p) same = rw (same p refl) (get_or_create_favorite-Meets.at w)
    shown_end w (err e) same = refl

-- The services refine a set of likes, on every branch, where no other request commits in between: adding
-- a favorite puts the customer's like of the product at the store into the set if it returns, and leaves
-- the set as it is if it raises; removing it takes exactly that like out.
pub favorites_lem :
    (rt : Runtime) (store : Boutique) (customer : User) (product_id : ℕ) (w : World)
    → let added = add_favorite rt (λ db. db) store customer product_id w in
      let removed = (remove_favorite store customer product_id w).1 in
      (likes added.1.db ≡ after_add customer.id store.id product_id added.0 (likes w.db))
      × (likes removed.db ≡ without_like customer.id store.id product_id (likes w.db))
unfolding add_favorite remove_favorite
favorites_lem rt store customer product_id w = (
  shown_end store customer product_id rt w (visible_product w.db.catalog store product_id)
      (visible_id store customer product_id rt w.db.catalog),
  λ i c s p.
      exists-reject (is_favorite store customer product_id)
        (λ f. f.customer == c && (f.store == s && f.product == p))
        (customer.id == c && (store.id == s && product_id == p)) (λ f h. ground arith)
        w.db.favorites i,
)
