-- ===== src/Catalog/Listing.antt =====
-- What the product grid shows, in which order, and how it is paged.
use boutique_backend.Prelude.Sorting.{order_by}
use boutique_backend.Catalog.Grid.{IsWanted, is_filtered_iff}
use boutique_backend.Prelude.{
  ◌<◌, ◌≢◌, ◌⊎◌, inl, inr, sym, ap, ◌∙◌, All, Bool-cases, eq_iff, ℕ, zero, suc, ◌≤◌, ◌≡◌, ◌↔◌,
  String, true, false, List, [], ◌∷◌, length, ℕ_eq, string_eq, arith,
}
use boutique_backend.Prelude.Int.{ℤ, pos, negsuc}
use boutique_backend.Prelude.Members.{In, In-select, In-order_by, IsSorted, order_by-IsSorted}
use boutique_backend.Models.{Boutique, Catalog, Product}
use boutique_backend.Catalog.{filtered, sorts, list_products, clamp_limit, clamp_offset, window}
use boutique_backend.Catalog.Criteria.{Collation, Filters, is_filtered}

-- The grid shows exactly the stored products that belong to the store and are visible, and that are in
-- the wanted category, have a wanted colour and a wanted size on an axis of their own, cost no less and
-- no more than the bounds and mention the text, as far as these are given.
pub list_products_iff :
    (collation : Collation) (store : Boutique) (sort : String) (filters : Filters) (c : Catalog)
    (p : Product)
    → In p (list_products collation store sort filters c)
      ↔ (In p c.products × IsWanted collation store filters c p)
unfolding list_products filtered
list_products_iff collation store sort filters c p =
    let ordered = In-order_by (sorts sort) p (filtered collation store filters c) in
    let kept = In-select (is_filtered collation store filters c) p c.products in
    let wanted = is_filtered_iff collation store filters c p in
    (
      λ h. let (row, fits) = kept.0 (ordered.0 h) in (row, wanted.0 fits),
      λ (row, fits). ordered.1 (kept.1 (row, wanted.1 fits)),
    )

compare_cases : (m n : ℕ) → (m < n) ⊎ ((m ≡ n) ⊎ (n < m))
compare_cases m n = omega arith

sorts_asymmetric : (sort : String) (x y : Product) → sorts sort x y ≡ true → sorts sort y x ≡ false
sorts_asymmetric sort x y h = ground arith

sorts_chained :
    (sort : String) (x y z : Product)
    → sorts sort y x ≡ false
    → sorts sort z y ≡ false
    → sorts sort z x ≡ false
sorts_chained sort x y z h k = ground arith

-- The earlier product is no older.
abbrev pub IsNoOlder : Product → Product → Type 0
IsNoOlder p q = q.created_at ≤ p.created_at

-- How two products stand on the grid, the first in front of the second, by the sort that the client names.
pub record Precedes (sort : String) (p q : Product) : Type 0 where
  pub price_asc : sort ≡ "price_asc" → (p.price < q.price) ⊎ ((p.price ≡ q.price) × IsNoOlder p q)
  pub price_desc : sort ≡ "price_desc" → (q.price < p.price) ⊎ ((p.price ≡ q.price) × IsNoOlder p q)
  pub featured :
      sort ≡ "featured"
      → ((p.is_featured ≡ true) × (q.is_featured ≡ false))
        ⊎ ((p.is_featured ≡ q.is_featured) × IsNoOlder p q)
  pub newest : sort ≢ "price_asc" → sort ≢ "price_desc" → sort ≢ "featured" → IsNoOlder p q

-- Each product stands rightly before all that come after it.
abbrev pub AreInOrder : String → List Product → Type 0
AreInOrder sort [] = Unit
AreInOrder sort (p ∷ ps) = All (Precedes sort p) ps × AreInOrder sort ps

price_asc_lem :
    (p q : Product)
    → sorts "price_asc" q p ≡ false
    → (p.price < q.price) ⊎ ((p.price ≡ q.price) × IsNoOlder p q)
price_asc_lem p q h = elim (compare_cases p.price q.price) [
  | inl less ↦ inl less
  | inr (inl same) ↦ inr (same, ground (arith, h, same))
  | inr (inr more) ↦ absurd (ground (arith, h, more))
]

price_desc_lem :
    (p q : Product)
    → sorts "price_desc" q p ≡ false
    → (q.price < p.price) ⊎ ((p.price ≡ q.price) × IsNoOlder p q)
price_desc_lem p q h = elim (compare_cases p.price q.price) [
  | inl less ↦ absurd (ground (arith, h, less))
  | inr (inl same) ↦ inr (same, ground (arith, h, same))
  | inr (inr more) ↦ inl more
]

featured_lem :
    (p q : Product)
    → sorts "featured" q p ≡ false
    → ((p.is_featured ≡ true) × (q.is_featured ≡ false))
      ⊎ ((p.is_featured ≡ q.is_featured) × IsNoOlder p q)
featured_lem p q h = elim (Bool-cases p.is_featured) [
  | inl first ↦ elim (Bool-cases q.is_featured) [
    | inl second ↦ inr (first ∙ sym second, ground (arith, h, first, second))
    | inr second ↦ inl (first, second)
  ]
  | inr first ↦ elim (Bool-cases q.is_featured) [
    | inl second ↦ absurd (ground (arith, h, first, second))
    | inr second ↦ inr (first ∙ sym second, ground (arith, h, first, second))
  ]
]

newest_lem :
    (sort : String) (p q : Product)
    → sorts sort q p ≡ false
    → sort ≢ "price_asc"
    → sort ≢ "price_desc"
    → sort ≢ "featured"
    → IsNoOlder p q
newest_lem sort p q h asc desc featured = ground (
  arith,
  h,
  (eq_iff sort "price_asc").0,
  (eq_iff sort "price_desc").0,
  (eq_iff sort "featured").0,
)

precedes_lem : (sort : String) (p q : Product) → sorts sort q p ≡ false → Precedes sort p q
precedes_lem sort p q h = record {
  price_asc = λ e. price_asc_lem p q (ap (λ s. sorts s q p) (sym e) ∙ h);
  price_desc = λ e. price_desc_lem p q (ap (λ s. sorts s q p) (sym e) ∙ h);
  featured = λ e. featured_lem p q (ap (λ s. sorts s q p) (sym e) ∙ h);
  newest = newest_lem sort p q h;
}

All-Precedes :
    (sort : String) (p : Product) (ps : List Product)
    → All (λ q. sorts sort q p ≡ false) ps
    → All (Precedes sort p) ps
All-Precedes sort p [] h = tt
All-Precedes sort p (q ∷ qs) h = (precedes_lem sort p q h.0, All-Precedes sort p qs h.1)

in_order : (sort : String) (ps : List Product) → IsSorted (sorts sort) ps → AreInOrder sort ps
in_order sort [] h = tt
in_order sort (p ∷ ps) h = (All-Precedes sort p ps h.0, in_order sort ps h.1)

-- The grid is in the order that the client names: the cheapest first for price_asc, the dearest first for
-- price_desc, the featured first for featured, and the newest first among equals and for every other
-- text.
pub list_products-AreInOrder :
    (collation : Collation) (store : Boutique) (sort : String) (filters : Filters) (c : Catalog)
    → AreInOrder sort (list_products collation store sort filters c)
unfolding list_products
list_products-AreInOrder collation store sort filters c =
    in_order sort (order_by (sorts sort) (filtered collation store filters c)) (
      order_by-IsSorted (sorts sort) (λ x y h. sorts_asymmetric sort y x h) (sorts_chained sort)
        (filtered collation store filters c))

-- Whatever limit the client sends, a page asks for one row at least and for sixty at most.
pub clamp_limit_bounds : (limit : ℤ) → (1 ≤ clamp_limit limit) × (clamp_limit limit ≤ 60)
unfolding clamp_limit
clamp_limit_bounds (pos zero) = (omega arith, omega arith)
clamp_limit_bounds (pos (suc n)) = ground arith
clamp_limit_bounds (negsuc n) = (omega arith, omega arith)

-- A window is no longer than asked.
pub length-window :
    {A : Type 0} (offset limit : ℕ) (rows : List A) → length (window offset limit rows) ≤ limit
unfolding window
length-window offset limit [] = omega arith
length-window zero zero (x ∷ xs) = omega arith
length-window zero (suc limit) (x ∷ xs) = omega (arith, length-window 0 limit xs)
length-window (suc offset) limit (x ∷ xs) = length-window offset limit xs

-- Whatever limit and offset the client sends, a page holds sixty products at most.
pub page_bound :
    (limit offset : ℤ) (rows : List Product)
    → length (window (clamp_offset offset) (clamp_limit limit) rows) ≤ 60
page_bound limit offset rows = omega (
  arith,
  length-window (clamp_offset offset) (clamp_limit limit) rows,
  (clamp_limit_bounds limit).1,
)
