-- ===== src/Catalog/Facets/Agreement.antt =====
-- The counts of the filter rail agree with the grid.
use boutique_backend.Prelude.{
  ℕ, ◌≡◌, ◌↔◌, sym, ap, ◌∙◌, String, Bool, List, [], ◌∷◌, map, select, dedup, length, All, ◌==◌,
  ℕ_eq, string_eq, arith, eq_iff,
}
use boutique_backend.Prelude.Constraints.{IsDistinct}
use boutique_backend.Prelude.Members.{In, In-select}
use boutique_backend.Prelude.Counting.{In-map, elem_iff, In-dedup, dedup-IsDistinct, length_of_same}
use boutique_backend.Prelude.Rows.{
  select-IsDistinct, select-select, map-IsDistinct, length-map, All-map,
}
use boutique_backend.Models.{Boutique, Catalog, Product, VariantGroup, VariantOption}
use boutique_backend.Catalog.{filtered}
use boutique_backend.Catalog.Facets.Axes.{In-with_groups, on_axis_iff}
use boutique_backend.Catalog.Criteria.{Collation, Filters, is_filtered, on_axis}
use boutique_backend.Catalog.Facets.{
  with_groups, on_rail, axis_rows, product_count, values, colour_facet, size_facet, product_facets,
}

-- What the count of a value rests on: product ids are primary keys, and the store column of an option
-- is that of the product whose axis it is on.
pub record IsStocked (c : Catalog) : Type 0 where
  pub ids : IsDistinct (λ (p q : Product). p.id == q.id) c.products
  pub stores :
      (o : VariantOption) (g : VariantGroup) (p : Product)
      → In o c.options
      → In g c.groups
      → In p c.products
      → o.group ≡ g.id
      → g.product ≡ p.id
      → o.store ≡ p.store

module _ (collation : Collation) (store : Boutique) (f : Filters) (c : Catalog) where
  abbrev shown : List Product
  shown = select (is_filtered collation store f c) c.products

  abbrev shown_ids : List ℕ
  shown_ids = map (λ p. p.id) shown

  abbrev narrowed : String → String → List Product
  narrowed axis v = select (on_axis collation axis (v ∷ []) c) shown

  abbrev counted : String → String → List ℕ
  counted axis v =
      map (λ r. r.1.product)
        (select (λ r. r.0.value == v)
          (select (on_rail collation store axis shown_ids) (with_groups c.groups c.options)))

  module _ (stocked : IsStocked c) where
    counted_iff :
        (axis v : String) (x : ℕ)
        → In x (dedup (counted axis v)) ↔ In x (map (λ (p : Product). p.id) (narrowed axis v))
    counted_iff axis v x =
        let rows = with_groups c.groups c.options in
        let rail = on_rail collation store axis shown_ids in
        let valued : VariantOption × VariantGroup → Bool = λ r. r.0.value == v in
        let product_of : VariantOption × VariantGroup → ℕ = λ r. r.1.product in
        let id_of : Product → ℕ = λ p. p.id in
        let has = on_axis collation axis (v ∷ []) c in
        (
          λ h.
              let (r, (i, named)) =
                (In-map product_of x (select valued (select rail rows))).0
                  ((In-dedup x (counted axis v)).0 h) in
              let (j, value) = (In-select valued r (select rail rows)).0 i in
              let (k, railed) = (In-select rail r rows).0 j in
              let (p, (on_grid, same)) =
                (In-map id_of r.1.product shown).0
                  ((elem_iff r.1.product shown_ids).0 (ground (arith, railed))) in
              let (option, (group, member)) = (In-with_groups c.groups c.options r.0 r.1).0 k in
              (In-map id_of x (narrowed axis v)).1 (
                p,
                (
                  (In-select has p shown).1 (
                    on_grid,
                    (on_axis_iff collation axis v c p).1 (
                      r.1,
                      (
                        r.0,
                        (
                          group,
                          (
                            option,
                            (
                              sym same,
                              (ground (arith, railed), (sym member, (eq_iff r.0.value v).0 value)),
                            ),
                          ),
                        ),
                      ),
                    ),
                  ),
                  same ∙ named,
                ),
              ),
          λ h.
              let (p, (i, same)) = (In-map id_of x (narrowed axis v)).0 h in
              let (on_grid, on) = (In-select has p shown).0 i in
              let (stored, visible) =
                (In-select (is_filtered collation store f c) p c.products).0 on_grid in
              let (g, (o, (group, (option, (product, (named, (member, value))))))) =
                (on_axis_iff collation axis v c p).0 on in
              let own = stocked.stores o g p option group stored member product in
              let listed =
                (elem_iff g.product shown_ids).1
                  ((In-map id_of g.product shown).1 (p, (on_grid, sym product))) in
              (In-dedup x (counted axis v)).1 (
                (In-map product_of x (select valued (select rail rows))).1 (
                  (o, g),
                  (
                    (In-select valued (o, g) (select rail rows)).1 (
                      (In-select rail (o, g) rows).1 (
                        (In-with_groups c.groups c.options o g).1 (option, (group, sym member)),
                        ground (arith, own, visible, named, listed),
                      ),
                      (eq_iff o.value v).1 value,
                    ),
                    product ∙ same,
                  ),
                )),
        )

    -- A value's count is the number of products that are left when it is chosen as well.
    count_lem :
        (axis v : String)
        → product_count (axis_rows collation store axis shown_ids c) v ≡ length (narrowed axis v)
    unfolding product_count axis_rows
    count_lem axis v =
        length_of_same (dedup (counted axis v)) (map (λ p. p.id) (narrowed axis v))
          (dedup-IsDistinct (counted axis v))
          (map-IsDistinct (λ p. p.id) (narrowed axis v)
            (select-IsDistinct (λ p q. p.id == q.id) (on_axis collation axis (v ∷ []) c) shown
              (select-IsDistinct (λ p q. p.id == q.id) (is_filtered collation store f c) c.products
                stocked.ids)))
          (counted_iff axis v)
        ∙ length-map (λ p. p.id) (narrowed axis v)

module _ (collation : Collation) (store : Boutique) (f : Filters) (c : Catalog) where
  one_colour :
      (v : String)
      → select (is_filtered collation store (record f { colours = v ∷ [] }) c) c.products
        ≡ narrowed collation store (record f { colours = [] }) c "Colour" v
  one_colour v =
      select-select (on_axis collation "Colour" (v ∷ []) c)
        (is_filtered collation store (record f { colours = [] }) c)
        (is_filtered collation store (record f { colours = v ∷ [] }) c) (λ p. ground arith)
        c.products

  one_size :
      (v : String)
      → select (is_filtered collation store (record f { sizes = v ∷ [] }) c) c.products
        ≡ narrowed collation store (record f { sizes = [] }) c "Size" v
  one_size v =
      select-select (on_axis collation "Size" (v ∷ []) c)
        (is_filtered collation store (record f { sizes = [] }) c)
        (is_filtered collation store (record f { sizes = v ∷ [] }) c) (λ p. ground arith) c.products

-- Where product ids are distinct and the store column of an option is that of its product: the count
-- next to a colour, while no colour is chosen, is the number of products that the grid shows once that
-- colour is chosen with the other filters kept; and so for a size.
pub product_facets_lem :
    (collation : Collation) (text_before : String → String → Bool) (store : Boutique) (f : Filters)
    (c : Catalog)
    → IsStocked c
    → All
        (λ r. r.count ≡ length (filtered collation store (record f { colours = r.value ∷ [] }) c))
        (product_facets collation text_before store (record f { colours = [] }) c).colours
      × All
          (λ r. r.count ≡ length (filtered collation store (record f { sizes = r.value ∷ [] }) c))
          (product_facets collation text_before store (record f { sizes = [] }) c).sizes
unfolding product_facets filtered
product_facets_lem collation text_before store f c stocked =
    let plain = record f { colours = [] } in
    let unsized = record f { sizes = [] } in
    let colour_rows = axis_rows collation store "Colour" (shown_ids collation store plain c) c in
    let size_rows = axis_rows collation store "Size" (shown_ids collation store unsized c) c in
    (
      All-map
          (λ r. r.count ≡ length (filtered collation store (record f { colours = r.value ∷ [] }) c))
          (colour_facet collation text_before colour_rows)
          (values collation text_before colour_rows)
          (λ v.
            count_lem collation store plain c stocked "Colour" v
            ∙ sym (ap length (one_colour collation store f c v))),
      All-map
          (λ r. r.count ≡ length (filtered collation store (record f { sizes = r.value ∷ [] }) c))
          (size_facet collation text_before size_rows) (values collation text_before size_rows)
          (λ v.
            count_lem collation store unsized c stocked "Size" v
            ∙ sym (ap length (one_size collation store f c v))),
    )
