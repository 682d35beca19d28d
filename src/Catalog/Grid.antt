-- ===== src/Catalog/Grid.antt =====
-- src/apps/products/selectors.py: the filters of the grid as conditions on the stored rows.
use boutique_backend.Prelude.{
  ℕ, ◌≤◌, ◌≡◌, ◌↔◌, ◌⊎◌, refl, inl, inr, String, Bool, true, false, ◌&&◌, ◌||◌, exists, elem,
  is_empty, Option, none, some, List, [], ◌∷◌, ◌==◌, ℕ_eq, string_eq, arith, eq_iff,
}
use boutique_backend.Prelude.Int.{ℤ, pos, negsuc}
use boutique_backend.Prelude.Members.{In}
use boutique_backend.Prelude.Counting.{exists_iff, elem_iff}
use boutique_backend.Models.{Boutique, Catalog, Category, Product, VariantGroup, VariantOption}
use boutique_backend.Catalog.Criteria.{
  Collation, Filters, in_category, offers, on_axis, at_least, at_most, mentions, is_filtered,
}

-- The product is in the category with the slug that is wanted.
abbrev pub InCategory : Option String → Catalog → Product → Type 0
InCategory none c p = Unit
InCategory (some slug) c p =
    (slug ≡ "") ⊎ ((k : Category) × (In k c.categories × (k.id ≡ p.category) × (k.slug ≡ slug)))

-- If values are wanted, one axis of the product that has the name offers one of them.
abbrev pub OnAxis : Collation → String → List String → Catalog → Product → Type 0
OnAxis collation axis values c p =
    (values ≡ [])
    ⊎ ((g : VariantGroup) × (In g c.groups
          × (g.product ≡ p.id)
          × (collation.iexact g.name axis ≡ true)
          × ((o : VariantOption) × (In o c.options × (o.group ≡ g.id) × In o.value values))))

abbrev pub AtLeast : Option ℤ → ℕ → Type 0
AtLeast none price = Unit
AtLeast (some (pos n)) price = n ≤ price
AtLeast (some (negsuc n)) price = Unit

abbrev pub AtMost : Option ℤ → ℕ → Type 0
AtMost none price = Unit
AtMost (some (pos n)) price = price ≤ n
AtMost (some (negsuc n)) price = ⊥

abbrev pub Mentions : Collation → Option String → Product → Type 0
Mentions collation none p = Unit
Mentions collation (some q) p =
    (q ≡ "")
    ⊎ ((collation.icontains p.name q ≡ true) ⊎ (collation.icontains p.description q ≡ true))

-- What the grid promises of a product that it shows.
pub record IsWanted (collation : Collation) (store : Boutique) (f : Filters) (c : Catalog)
    (p : Product) : Type 0 where
  pub of_store : p.store ≡ store.id
  pub visible : p.is_visible ≡ true
  pub category : InCategory f.category c p
  pub colours : OnAxis collation "Colour" f.colours c p
  pub sizes : OnAxis collation "Size" f.sizes c p
  pub cheapest : AtLeast f.price_min p.price
  pub dearest : AtMost f.price_max p.price
  pub text : Mentions collation f.q p

either_iff : (a b : Bool) → ((a || b) ≡ true) ↔ ((a ≡ true) ⊎ (b ≡ true))
either_iff true b = (λ h. inl refl, λ h. refl)
either_iff false b = (λ h. inr h, λ h. elim h [ inl e ↦ absurd (ground arith) | inr e ↦ e ])

in_category_iff :
    (wanted : Option String) (c : Catalog) (p : Product)
    → (in_category wanted c p ≡ true) ↔ InCategory wanted c p
in_category_iff none c p = (λ h. tt, λ h. refl)
in_category_iff (some slug) c p =
    let fits = λ (k : Category). k.id == p.category && k.slug == slug in
    let either = either_iff (slug == "") (exists fits c.categories) in
    (
      λ h. elim (either.0 h) [
        | inl e ↦ inl ((eq_iff slug "").0 e)
        | inr e ↦
            let (k, (row, own)) = (exists_iff fits c.categories).0 e in
            inr (k, (row, ground arith, (eq_iff k.slug slug).0 (ground arith)))
      ],
      λ h. elim h [
        | inl e ↦ either.1 (inl ((eq_iff slug "").1 e))
        | inr (k, (row, in_it, named)) ↦
            let spelled = (eq_iff k.slug slug).1 named in
            either.1
              (inr ((exists_iff fits c.categories).1 (k, (row, ground (arith, in_it, spelled)))))
      ],
    )

is_empty_iff : (xs : List String) → (is_empty xs ≡ true) ↔ (xs ≡ [])
is_empty_iff [] = (λ h. refl, λ h. refl)
is_empty_iff (x ∷ xs) = (λ h. absurd (ground arith), λ h. absurd (ground arith))

on_axis_iff :
    (collation : Collation) (axis : String) (values : List String) (c : Catalog) (p : Product)
    → (on_axis collation axis values c p ≡ true) ↔ OnAxis collation axis values c p
on_axis_iff collation axis values c p =
    let fits = λ (g : VariantGroup).
      g.product == p.id && (collation.iexact g.name axis && offers values c g) in
    let either = either_iff (is_empty values) (exists fits c.groups) in
    (
      λ h. elim (either.0 h) [
        | inl e ↦ inl ((is_empty_iff values).0 e)
        | inr e ↦
            let (g, (row, own)) = (exists_iff fits c.groups).0 e in
            let (o, (stored, fit)) =
              (exists_iff (λ (o : VariantOption). o.group == g.id && elem o.value values)
                  c.options).0
                (ground (arith, own)) in
            inr (
              g,
              (
                row,
                ground (arith, own),
                ground (arith, own),
                (
                  o,
                  (stored, ground (arith, fit), (elem_iff o.value values).0 (ground (arith, fit))),
                ),
              ),
            )
      ],
      λ h. elim h [
        | inl e ↦ either.1 (inl ((is_empty_iff values).1 e))
        | inr (g, (row, own, named, (o, (stored, of_group, wanted)))) ↦
            let offered =
              (exists_iff (λ (o : VariantOption). o.group == g.id && elem o.value values)
                  c.options).1
                (
                  o,
                  (
                    stored,
                    let e = (elem_iff o.value values).1 wanted in ground (arith, of_group, e),
                  ),
                ) in
            either.1
              (inr ((exists_iff fits c.groups).1 (g, (row, ground (arith, own, named, offered)))))
      ],
    )

at_least_iff : (bound : Option ℤ) (price : ℕ) → (at_least bound price ≡ true) ↔ AtLeast bound price
at_least_iff none price = (λ h. tt, λ h. refl)
at_least_iff (some (pos n)) price = (λ h. ground (arith, h), λ h. ground (arith, h))
at_least_iff (some (negsuc n)) price = (λ h. tt, λ h. refl)

at_most_iff : (bound : Option ℤ) (price : ℕ) → (at_most bound price ≡ true) ↔ AtMost bound price
at_most_iff none price = (λ h. tt, λ h. refl)
at_most_iff (some (pos n)) price = (λ h. ground (arith, h), λ h. ground (arith, h))
at_most_iff (some (negsuc n)) price = (λ h. absurd (ground (arith, h)), λ h. absurd h)

mentions_iff :
    (collation : Collation) (q : Option String) (p : Product)
    → (mentions collation q p ≡ true) ↔ Mentions collation q p
mentions_iff collation none p = (λ h. tt, λ h. refl)
mentions_iff collation (some q) p =
    let outer =
      either_iff (q == "") (collation.icontains p.name q || collation.icontains p.description q) in
    let inner = either_iff (collation.icontains p.name q) (collation.icontains p.description q) in
    (
      λ h. elim (outer.0 h) [ inl e ↦ inl ((eq_iff q "").0 e) | inr e ↦ inr (inner.0 e) ],
      λ h. elim h [ inl e ↦ outer.1 (inl ((eq_iff q "").1 e)) | inr e ↦ outer.1 (inr (inner.1 e)) ],
    )

-- The filters, one by one.
pub is_filtered_iff :
    (collation : Collation) (store : Boutique) (f : Filters) (c : Catalog) (p : Product)
    → (is_filtered collation store f c p ≡ true) ↔ IsWanted collation store f c p
is_filtered_iff collation store f c p = (
  λ h. record {
    of_store = ground (arith, h);
    visible = ground (arith, h);
    category = (in_category_iff f.category c p).0 (ground (arith, h));
    colours = (on_axis_iff collation "Colour" f.colours c p).0 (ground (arith, h));
    sizes = (on_axis_iff collation "Size" f.sizes c p).0 (ground (arith, h));
    cheapest = (at_least_iff f.price_min p.price).0 (ground (arith, h));
    dearest = (at_most_iff f.price_max p.price).0 (ground (arith, h));
    text = (mentions_iff collation f.q p).0 (ground (arith, h));
  },
  λ h. ground (
    arith,
    h.of_store,
    h.visible,
    (in_category_iff f.category c p).1 h.category,
    (on_axis_iff collation "Colour" f.colours c p).1 h.colours,
    (on_axis_iff collation "Size" f.sizes c p).1 h.sizes,
    (at_least_iff f.price_min p.price).1 h.cheapest,
    (at_most_iff f.price_max p.price).1 h.dearest,
    (mentions_iff collation f.q p).1 h.text,
  ),
)
