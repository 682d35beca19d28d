-- ===== src/Catalog/Slugs/Search.antt =====
-- The search for a slug ends: among more candidates than there are rows, one is free.
use boutique_backend.Prelude.{
  ℕ, zero, suc, ◌+◌, ◌≤◌, ◌<◌, ◌≡◌, ◌≢◌, refl, sym, ◌∙◌, inl, inr, String, Bool, true, false, ◌&&◌,
  some, List, [], ◌∷◌, exists, reject, length, arith, Bool-cases,
}
use boutique_backend.Prelude.Counting.{length-reject-lt}
use boutique_backend.Catalog.Slugs.{base_slug, candidate, search_slug, unique_slug}
use boutique_backend.Catalog.Slugs.Numerals.{candidate_inj}

-- The first `n` candidates are taken.
abbrev pub all_taken : (String → Bool) → String → ℕ → Bool
all_taken taken base zero = true
all_taken taken base (suc n) = all_taken taken base n && taken (candidate base n)

module _ {A : Type 0} where
  exists-reject_of_apart :
      (p q : A → Bool)
      → ((x : A) → q x ≡ true → p x ≡ false)
      → (xs : List A) → exists q (reject p xs) ≡ exists q xs
  exists-reject_of_apart p q apart [] = refl
  exists-reject_of_apart p q apart (x ∷ xs) =
      ground (arith, apart x, exists-reject_of_apart p q apart xs)

-- A row takes one text at most.
module _ {A : Type 0} (takes : A → String → Bool)
    (one : (r : A) (s t : String) → takes r s ≡ true → takes r t ≡ true → s ≡ t)
    (base : String) where
  apart :
      (r : A) (j k : ℕ)
      → j ≢ k
      → takes r (candidate base j) ≡ true
      → takes r (candidate base k) ≡ false
  apart r j k differ h = elim (Bool-cases (takes r (candidate base k))) [
    | inl too ↦
        absurd (differ (candidate_inj base j k (one r (candidate base j) (candidate base k) h too)))
    | inr e ↦ e
  ]

  -- Of the `f` candidates from the k-th on, one is free if there are less than `f` rows: the rows that
  -- take the first of them take none of the others.
  free_candidate :
      (f k : ℕ) (rows : List A)
      → length rows < f
      → (j : ℕ) × ((k ≤ j) × (j < k + f) × (exists (λ r. takes r (candidate base j)) rows ≡ false))
  free_candidate zero k rows h = absurd (omega arith)
  free_candidate (suc f) k rows h =
      elim (Bool-cases (exists (λ r. takes r (candidate base k)) rows)) [
        | inr free ↦ (k, (omega arith, omega arith, free))
        | inl hit ↦
            let p = λ (r : A). takes r (candidate base k) in
            let (j, (low, high, free)) =
              free_candidate f (suc k) (reject p rows)
                (omega (arith, length-reject-lt p rows hit)) in
            (
              j,
              (
                omega arith,
                omega arith,
                sym (
                      exists-reject_of_apart p (λ r. takes r (candidate base j))
                        (λ r. apart r j k (λ e. absurd (omega (arith, e)))) rows)
                    ∙ free,
              ),
            )
      ]

search_lem :
    (taken : String → Bool) (base : String) (f k j : ℕ)
    → all_taken taken base k ≡ true
    → k ≤ j
    → j < k + f
    → taken (candidate base j) ≡ false
    → (n : ℕ) × ((search_slug f taken base k ≡ some (candidate base n))
        × (taken (candidate base n) ≡ false)
        × (all_taken taken base n ≡ true))
unfolding search_slug
search_lem taken base zero k j before low high free = absurd (omega arith)
search_lem taken base (suc f) k j before low high free =
    elim (Bool-cases (taken (candidate base k))) [
      | inr e ↦ (k, (rw e refl, e, before))
      | inl e ↦
          let (n, (found, open_slug, all)) =
            search_lem taken base f (suc k) j (rw (before, e) refl) (ground (arith, e, free))
              (omega arith) free in
          (n, (rw e found, open_slug, all))
    ]

-- Where a row takes one text at most, as many rounds as there are rows and one more are enough for
-- `_unique_slug`: it returns a candidate that no row takes, the first such one.
pub unique_slug_lem :
    {A : Type 0} (slugify : String → String) (name : String) (takes : A → String → Bool)
    (rows : List A)
    → ((r : A) (s t : String) → takes r s ≡ true → takes r t ≡ true → s ≡ t)
    → let taken = λ (s : String). exists (λ r. takes r s) rows in
      let base = base_slug slugify name in
      (n : ℕ) × ((unique_slug slugify (length rows + 1) taken name ≡ some (candidate base n))
        × (taken (candidate base n) ≡ false)
        × (all_taken taken base n ≡ true))
unfolding unique_slug
unique_slug_lem slugify name takes rows one =
    let base = base_slug slugify name in
    let (j, (low, high, free)) =
      free_candidate takes one base (length rows + 1) 0 rows (omega arith) in
    search_lem (λ s. exists (λ r. takes r s) rows) base (length rows + 1) 0 j refl low high free
