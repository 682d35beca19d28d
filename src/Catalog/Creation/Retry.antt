-- ===== src/Catalog/Creation/Retry.antt =====
-- How the five rounds of `create_product` end.
use boutique_backend.Prelude.{
  ℕ, zero, suc, ◌<◌, ◌≡◌, ◌≢◌, sym, ap, subst, ◌∙◌, inl, inr, String, false, exists, ◌==◌, ◌&&◌,
  ℕ_eq, string_eq, arith, eq_iff, Bool-cases,
}
use boutique_backend.Prelude.Int.{ℤ}
use boutique_backend.Models.{Boutique, Db, Category, Product}
use boutique_backend.Api.{
  Error, integrity_error, data_error, out_of_fuel, Result, ok, err, World, Runtime, Action, ◌>>◌,
  raise, reads, gets, atomic, modify_db,
}
use boutique_backend.Api.Bind.{bind_of_ok}
use boutique_backend.Api.Avoids.{
  Avoids, Avoids-raise, Avoids-reads, Avoids-gets, Avoids-atomic, Avoids-if, Avoids-modify_db,
  Avoids-bind, get_object_or_404_err,
}
use boutique_backend.Orders.{on_integrity_error}
use boutique_backend.Orders.Recovery.{Avoids-on_integrity_error}
use boutique_backend.Catalog.Slugs.{base_slug, candidate}
use boutique_backend.Catalog.Slugs.Search.{unique_slug_lem}
use boutique_backend.Catalog.Creation
use boutique_backend.Catalog.Creation.{
  try_again, takes_category, takes_product, found_slug, category_slug, product_slug, build_product,
  after_clash, attempts, create_category, create_product,
}
use boutique_backend.Catalog.Creation.Failures.{build_product-Avoids, add_category-Avoids}

-- The search finds a slug, and no product of the store has it.
product_slug_lem :
    (slugify : String → String) (store : Boutique) (name : String) (db : Db)
    → (slug : String) × ((product_slug slugify store name db ≡ ok slug)
        × (exists (λ p. takes_product store p slug) db.products ≡ false))
unfolding product_slug
product_slug_lem slugify store name db =
    let (n, (found, free, first)) =
      unique_slug_lem slugify name (takes_product store) db.products
        (λ p s t hs ht. ground (arith, eq_iff p.slug s, eq_iff p.slug t)) in
    (candidate (base_slug slugify name) n, (ap found_slug found, free))

category_slug_lem :
    (slugify : String → String) (store : Boutique) (name : String) (db : Db)
    → (slug : String) × (category_slug slugify store name db ≡ ok slug)
unfolding category_slug
category_slug_lem slugify store name db =
    let (n, (found, free, first)) =
      unique_slug_lem slugify name (takes_category store) db.categories
        (λ k s t hs ht. ground (arith, eq_iff k.slug s, eq_iff k.slug t)) in
    (candidate (base_slug slugify name) n, ap found_slug found)

category_search :
    (slugify : String → String) (store : Boutique) (name : String)
    → Avoids out_of_fuel (reads (category_slug slugify store name))
category_search slugify store name =
    Avoids-reads out_of_fuel (category_slug slugify store name) λ db h.
      let (slug, found) = category_slug_lem slugify store name db in ground (arith, found, h)

product_search :
    (slugify : String → String) (store : Boutique) (name : String) (e : Error)
    → Avoids e (reads (product_slug slugify store name))
product_search slugify store name e = Avoids-reads e (product_slug slugify store name) λ db h.
    let (slug, (found, free)) = product_slug_lem slugify store name db in ground (arith, found, h)

-- The transaction of a round whose slug nobody took meanwhile, by how it ended: a clash is not over
-- the slug, and is raised again.
quiet_end :
    (e : Error) (store : Boutique) (slug : String) (again : Action Product) (w : World)
    → integrity_error ≢ e
    → exists (λ p. takes_product store p slug) w.db.products ≡ false
    → (p : Result Product × World) → p.0 ≢ err e
    → (on_integrity_error (atomic (λ (v : World). p)) (after_clash store slug again) w).0 ≢ err e
quiet_end e store slug again w differs free (ok a, w') fine h = ground arith
quiet_end e store slug again w differs free (err integrity_error, w') fine h =
    differs (ground (arith, free, h))
quiet_end e store slug again w differs free (err d, w') fine h = fine h

module _ (rt : Runtime) (slugify : String → String) (others : ℕ → Db → Db) (store : Boutique) where
  module _ (category : Category) (payload : Creation.ProductCreate) where
    -- A round fails with no error that the rounds after it do not fail with, but the database's.
    round-Avoids :
        (e : Error) (k : ℕ)
        → data_error ≢ e
        → integrity_error ≢ e
        → Avoids e (attempts rt slugify others store category payload k)
        → Avoids e (attempts rt slugify others store category payload (suc k))
    unfolding attempts
    round-Avoids e k not_data not_integrity again =
        Avoids-bind e (reads (product_slug slugify store payload.name)) _
          (product_search slugify store payload.name e)
          λ slug. Avoids-bind e (modify_db (others k)) _ (Avoids-modify_db e (others k)) λ _.
            Avoids-on_integrity_error e (atomic (build_product rt store category slug payload))
              (after_clash store slug (attempts rt slugify others store category payload k))
              (Avoids-atomic e (build_product rt store category slug payload)
                (build_product-Avoids e not_data not_integrity rt store category slug payload))
              (Avoids-bind e (gets (λ db. exists (λ p. takes_product store p slug) db.products)) _
                (Avoids-gets e (λ db. exists (λ p. takes_product store p slug) db.products))
                λ lost.
                  Avoids-if e lost (attempts rt slugify others store category payload k)
                    (raise integrity_error) again (Avoids-raise e integrity_error not_integrity))

    attempts-terminates :
        (k : ℕ) → Avoids out_of_fuel (attempts rt slugify others store category payload k)
    unfolding attempts
    attempts-terminates zero = Avoids-raise out_of_fuel try_again (λ h. ground arith)
    attempts-terminates (suc k) =
        round-Avoids out_of_fuel k (λ h. ground arith) (λ h. ground arith) (attempts-terminates k)

    -- A round after its search, and with what others commit in it.
    abbrev round : ℕ → String → Action Product
    round k slug =
        modify_db (others k)
        >> on_integrity_error (atomic (build_product rt store category slug payload))
            (after_clash store slug (attempts rt slugify others store category payload k))

    attempts_of_slug :
        (k : ℕ) (slug : String) (w : World)
        → product_slug slugify store payload.name w.db ≡ ok slug
        → attempts rt slugify others store category payload (suc k) w ≡ round k slug w
    unfolding attempts
    attempts_of_slug k slug w found =
        bind_of_ok (reads (product_slug slugify store payload.name)) (round k) w slug w
          (ap (λ (r : Result String). (r, w)) found)

    -- A round in which nothing else is committed is the last one.
    quiet_round :
        (k : ℕ)
        → ((db : Db) → others k db ≡ db)
        → (w : World)
        → (attempts rt slugify others store category payload (suc k) w).0 ≢ err try_again
    quiet_round k quiet w h =
        let (slug, (found, free)) = product_slug_lem slugify store payload.name w.db in
        let again = attempts rt slugify others store category payload k in
        let insert = build_product rt store category slug payload in
        let same =
          ap
            (λ (db : Db).
              (on_integrity_error (atomic insert) (after_clash store slug again)
                (record w { db = db })).0)
            (quiet w.db) in
        quiet_end try_again store slug again w (λ d. ground arith) free (insert w)
          ((build_product-Avoids try_again (λ d. ground arith) (λ d. ground arith) rt store category
              slug payload).at
            w)
          (sym same
            ∙ sym (ap (λ (p : Result Product × World). p.0) (attempts_of_slug k slug w found))
            ∙ h)

    attempts_lem :
        (rounds j : ℕ)
        → j < rounds
        → ((db : Db) → others j db ≡ db)
        → Avoids try_again (attempts rt slugify others store category payload rounds)
    attempts_lem zero j h quiet = absurd (omega arith)
    attempts_lem (suc k) j h quiet = elim (Bool-cases (k == j)) [
      | inl e ↦
          let same : k ≡ j = ground (arith, e) in
          record { at = quiet_round k (subst (λ i. (db : Db) → others i db ≡ db) (sym same) quiet) }
      | inr e ↦
          round-Avoids try_again k (λ d. ground arith) (λ d. ground arith)
            (attempts_lem k j (ground (arith, e)) quiet)
    ]

  -- If other requests commit nothing in one of the five rounds, whatever they commit in the others,
  -- then `create_product` does not answer that the caller must retry.
  pub create_product_lem :
      (payload : Creation.ProductCreate) (j : ℕ)
      → j < 5
      → ((db : Db) → others j db ≡ db)
      → (w : World) → (create_product rt slugify others store payload w).0 ≢ err try_again
  unfolding create_product
  create_product_lem payload j h quiet =
      (Avoids-bind try_again (reads _) _
        (Avoids-reads try_again _ λ db.
          get_object_or_404_err try_again
            (λ k. k.store == store.id && k.slug == payload.category_slug) db.categories
            (λ d. ground arith) (λ d. ground arith))
        λ category. attempts_lem category payload 5 j h quiet).at

  -- The search for a slug ends in every round of `create_product`, whatever other requests commit.
  pub create_product-terminates :
      (payload : Creation.ProductCreate) (w : World)
      → (create_product rt slugify others store payload w).0 ≢ err out_of_fuel
  unfolding create_product
  create_product-terminates payload =
      (Avoids-bind out_of_fuel (reads _) _
        (Avoids-reads out_of_fuel _ λ db.
          get_object_or_404_err out_of_fuel
            (λ k. k.store == store.id && k.slug == payload.category_slug) db.categories
            (λ d. ground arith) (λ d. ground arith))
        λ category. attempts-terminates category payload 5).at

-- The search for a slug ends in `create_category`, whatever other requests commit.
pub create_category-terminates :
    (rt : Runtime) (slugify : String → String) (others : Db → Db) (store : Boutique) (name : String)
    (position : ℤ) (w : World)
    → (create_category rt slugify others store name position w).0 ≢ err out_of_fuel
unfolding create_category
create_category-terminates rt slugify others store name position =
    (Avoids-bind out_of_fuel (reads (category_slug slugify store name)) _
      (category_search slugify store name)
      λ slug.
        Avoids-bind out_of_fuel (modify_db others) _ (Avoids-modify_db out_of_fuel others) λ _.
          add_category-Avoids out_of_fuel (λ d. ground arith) (λ d. ground arith) rt store name
            position slug).at
