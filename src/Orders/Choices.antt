-- ===== src/Orders/Choices.antt =====
-- Which option ids `_resolve_options` accepts.
mod Tests
use boutique_backend.Prelude.{
  ℕ, suc, ◌+◌, ◌≤◌, ◌≡◌, ◌↔◌, ◌⊎◌, refl, sym, ap, subst, ◌∙◌, inl, inr, String, Bool, true, false,
  ◌&&◌, ◌||◌, not, Option, none, some, List, [], ◌∷◌, map, exists, elem, dedup, find?, length, ◌==◌,
  ℕ_eq, arith, if◌then◌else◌, Bool-cases, Option-cases,
}
use mathlib.Core.Bool.{false≢true}
use boutique_backend.Prelude.Constraints.{IsDistinct}
use boutique_backend.Prelude.Dict.{Dict}
use boutique_backend.Prelude.Sorting.{insert_by, order_by}
use boutique_backend.Prelude.Members.{In, In-order_by, none_of_exists}
use boutique_backend.Prelude.Counting.{
  exists_iff, elem_iff, In-map, In-dedup, dedup-IsDistinct, whole_iff, none_of_elem,
  length-le_of_sub, length_of_same,
}
use boutique_backend.Prelude.Rows.{row_of_find, find_of_row, map-IsDistinct, length-map}
use boutique_backend.Prelude.Reordering.{order_by-IsDistinct}
use boutique_backend.Models.{Catalog, Product, VariantGroup, VariantOption}
use boutique_backend.Api.{Error, http, Result, ok, err}
use boutique_backend.Orders.Options.{
  group_of, chosen_row, cons_some, chosen_options, by_position, snapshot_from, resolve_options,
}

-- The id names an option that is on an axis of the product.
abbrev pub IsChoice : Catalog → Product → ℕ → Type 0
IsChoice c product i =
    (o : VariantOption) × (In o c.options
      × ((o.id ≡ i)
          × ((g : VariantGroup) × (In g c.groups × ((g.id ≡ o.group) × (g.product ≡ product.id))))))

module _ (groups : List VariantGroup) (product : Product) (ids : List ℕ) where
  abbrev ids_of : List (VariantOption × VariantGroup) → List ℕ
  ids_of rows = map (λ r. r.0.id) rows

  -- The options that the query returns, by their ids.
  abbrev answers : VariantOption → Bool
  answers o = elem o.id ids && (elim (group_of groups product o) [ none ↦ false | some g ↦ true ])

  row_cases :
      (o : VariantOption)
      → ((chosen_row groups product ids o ≡ none) × (answers o ≡ false))
        ⊎ ((g : VariantGroup) × ((chosen_row groups product ids o ≡ some (o, g))
              × (answers o ≡ true)))
  row_cases o = elim (Bool-cases (elem o.id ids)) [
    | inr e ↦ inl (ground (arith, e), ground (arith, e))
    | inl e ↦ elim (Option-cases (group_of groups product o)) [
      | inl absent ↦ inl (ground (arith, e, absent), ground (arith, e, absent))
      | inr (g, found) ↦ inr (g, (ground (arith, e, found), ground (arith, e, found)))
    ]
  ]

  chosen_ids :
      (x : ℕ) (os : List VariantOption)
      → In x (ids_of (chosen_options groups product ids os))
        ↔ ((o : VariantOption) × (In o os × ((answers o ≡ true) × (o.id ≡ x))))
  unfolding chosen_options
  chosen_ids x [] = (λ h. absurd h, λ h. h.1.0)
  chosen_ids x (o ∷ os) = elim (row_cases o) [
    | inl (absent, unfit) ↦ (
      λ h. let (p, (i, e)) = (chosen_ids x os).0 (rw absent at h) in (p, (inr i, e)),
      λ (p, (i, (fits, e))). rw absent (elim i [
        | inl same ↦ absurd (false≢true (sym unfit ∙ (ap answers (sym same) ∙ fits)))
        | inr j ↦ (chosen_ids x os).1 (p, (j, (fits, e)))
      ]),
    )
    | inr (g, (found, fits)) ↦ (
      λ h. elim (rw found at h) [
        | inl e ↦ (o, (inl refl, (fits, sym e)))
        | inr j ↦ let (p, (i, e)) = (chosen_ids x os).0 j in (p, (inr i, e))
      ],
      λ (p, (i, (fit, e))). rw found (elim i [
        | inl same ↦ inl (sym e ∙ ap (λ (q : VariantOption). q.id) same)
        | inr j ↦ inr ((chosen_ids x os).1 (p, (j, (fit, e))))
      ]),
    )
  ]

  exists-chosen :
      (x : ℕ) (os : List VariantOption)
      → exists (λ o. x == o.id) os ≡ false
      → exists (λ y. x == y) (ids_of (chosen_options groups product ids os)) ≡ false
  unfolding chosen_options
  exists-chosen x [] h = refl
  exists-chosen x (o ∷ os) h = elim (row_cases o) [
    | inl (absent, unfit) ↦ rw absent (exists-chosen x os (ground (arith, h)))
    | inr (g, (found, fits)) ↦ rw found (ground (arith, h, exists-chosen x os))
  ]

  chosen-IsDistinct :
      (os : List VariantOption)
      → IsDistinct (λ o p. o.id == p.id) os
      → IsDistinct (λ x y. x == y) (ids_of (chosen_options groups product ids os))
  unfolding chosen_options
  chosen-IsDistinct [] d = tt
  chosen-IsDistinct (o ∷ os) d = elim (row_cases o) [
    | inl (absent, unfit) ↦ rw absent (chosen-IsDistinct os d.1)
    | inr (g, (found, fits)) ↦ rw found (exists-chosen o.id os d.0, chosen-IsDistinct os d.1)
  ]

module _ (c : Catalog) (product : Product) (ids : List ℕ)
    (distinct : IsDistinct (λ (o p : VariantOption). o.id == p.id) c.options) where
  abbrev found : List ℕ
  found =
      ids_of c.groups product ids
        (chosen_options c.groups product ids (order_by by_position c.options))

  group_row :
      (o : VariantOption) (g : VariantGroup)
      → group_of c.groups product o ≡ some g
      → (f : VariantGroup) × (In f c.groups × ((f.id ≡ o.group) × (f.product ≡ product.id)))
  group_row o g h =
      let (row, fits) =
        row_of_find (λ (f : VariantGroup). f.id == o.group && f.product == product.id) g c.groups
          h in
      (g, (row, (ground (arith, fits), ground (arith, fits))))

  row_group :
      (o : VariantOption)
      → (f : VariantGroup) × (In f c.groups × ((f.id ≡ o.group) × (f.product ≡ product.id)))
      → (g : VariantGroup) × (group_of c.groups product o ≡ some g)
  row_group o (f, (row, (member, own))) =
      find_of_row (λ (f : VariantGroup). f.id == o.group && f.product == product.id) f c.groups row
        (ground (arith, member, own))

  found_iff : (x : ℕ) → In x found ↔ (In x ids × IsChoice c product x)
  found_iff x =
      let chosen = chosen_ids c.groups product ids x (order_by by_position c.options) in
      (
        λ h.
            let (o, (i, (fits, same))) = chosen.0 h in
            let listed = (elem_iff o.id ids).0 (ground (arith, fits)) in
            elim (Option-cases (group_of c.groups product o)) [
              | inl absent ↦ absurd (ground (arith, fits, absent))
              | inr (g, grouped) ↦ (
                subst (λ y. In y ids) same listed,
                (o, ((In-order_by by_position o c.options).0 i, (same, group_row o g grouped))),
              )
            ],
        λ (listed, (o, (i, (same, axis)))).
            let (g, grouped) = row_group o axis in
            chosen.1 (
              o,
              (
                (In-order_by by_position o c.options).1 i,
                (
                  ground (
                    arith,
                    grouped,
                    (elem_iff o.id ids).1 (subst (λ y. In y ids) (sym same) listed),
                  ),
                  same,
                ),
              ),
            ),
      )

  found-IsDistinct : IsDistinct (λ x y. x == y) found
  found-IsDistinct = chosen-IsDistinct c.groups product ids (order_by by_position c.options) (
      order_by-IsDistinct (λ o p. o.id == p.id) (λ o p. ground arith) by_position c.options
        distinct)

  counted_iff :
      (length (chosen_options c.groups product ids (order_by by_position c.options))
        ≡ length (dedup ids))
      ↔ ((x : ℕ) → In x ids → IsChoice c product x)
  counted_iff =
      let rows = chosen_options c.groups product ids (order_by by_position c.options) in
      let whole = whole_iff found ids found-IsDistinct (λ x j. ((found_iff x).0 j).0) in
      (
        λ h x i. ((found_iff x).0 (whole.0 (length-map (λ r. r.0.id) rows ∙ h) x i)).1,
        λ h. sym (length-map (λ r. r.0.id) rows) ∙ whole.1 (λ x i. (found_iff x).1 (i, h x i)),
      )

-- While option ids are primary keys, a bag item's option ids resolve to a snapshot exactly if every one
-- of them names an option on an axis of this very product.
pub resolve_options_iff :
    (c : Catalog) (product : Product) (ids : List ℕ)
    → IsDistinct (λ (o p : VariantOption). o.id == p.id) c.options
    → ((s : Dict String) × (resolve_options c product ids ≡ ok s))
      ↔ ((i : ℕ) → In i ids → IsChoice c product i)
unfolding resolve_options
resolve_options_iff c product [] distinct = (λ h i j. absurd j, λ h. ([], refl))
resolve_options_iff c product (i ∷ is) distinct =
    let rows = chosen_options c.groups product (i ∷ is) (order_by by_position c.options) in
    let counted = counted_iff c product (i ∷ is) distinct in
    elim (Bool-cases (length rows == length (dedup (i ∷ is)))) [
      | inl e ↦
          (λ h. counted.0 (ground (arith, e)), λ h. (snapshot_from [] rows, ground (arith, e)))
      | inr e ↦
          (λ (s, h). absurd (ground (arith, e, h)), λ h. absurd (ground (arith, e, counted.1 h)))
    ]
