-- ===== src/Catalog/Facets/Axes.antt =====
-- The join of options with their groups, and what the filter of an axis asks for.
use boutique_backend.Prelude.{
  subst, ◌≡◌, ◌↔◌, sym, ap, ◌∙◌, inl, inr, String, Bool, true, ◌&&◌, List, [], ◌∷◌, map, select,
  elem, ◌==◌, ℕ_eq, string_eq, arith, eq_iff,
}
use boutique_backend.Prelude.Members.{In, In-select}
use boutique_backend.Prelude.Counting.{exists_iff, In-map}
use boutique_backend.Prelude.Rows.{In-append}
use boutique_backend.Models.{Catalog, Product, VariantGroup, VariantOption}
use boutique_backend.Catalog.Criteria.{Collation, on_axis, offers}
use boutique_backend.Catalog.Facets.{with_groups}

pair_of :
    {o p : VariantOption} (g : VariantGroup)
    → p ≡ o
    → Path (VariantOption × VariantGroup) (p, g) (o, g)
pair_of g e = ap (λ x. (x, g)) e

-- The join has every option with every group that it names.
pub In-with_groups :
    (groups : List VariantGroup) (options : List VariantOption) (o : VariantOption)
    (g : VariantGroup)
    → In (o, g) (with_groups groups options) ↔ (In o options × (In g groups × (g.id ≡ o.group)))
In-with_groups groups [] o g = (λ h. absurd h, λ h. h.0)
In-with_groups groups (p ∷ ps) o g =
    let here : VariantGroup → VariantOption × VariantGroup = λ f. (p, f) in
    let own = select (λ f. f.id == p.group) groups in
    (
      λ h. elim ((In-append (o, g) (map here own) (with_groups groups ps)).0 h) [
        | inl i ↦
            let (f, (j, e)) = (In-map here (o, g) own).0 i in
            let (row, fits) = (In-select (λ f. f.id == p.group) f groups).0 j in
            (
              inl (sym (ap (λ (r : VariantOption × VariantGroup). r.0) e)),
              (
                subst (λ x. In x groups) (ap (λ (r : VariantOption × VariantGroup). r.1) e) row,
                sym (ap (λ (r : VariantOption × VariantGroup). r.1.id) e)
                    ∙ ((ℕ_eq.beq_iff f.id p.group).0 fits
                        ∙ ap (λ (r : VariantOption × VariantGroup). r.0.group) e),
              ),
            )
        | inr i ↦ let (a, (b, c)) = (In-with_groups groups ps o g).0 i in (inr a, (b, c))
      ],
      λ (i, (j, e)). (In-append (o, g) (map here own) (with_groups groups ps)).1 (elim i [
        | inl same ↦ inl (
            (In-map here (o, g) own).1 (
              g,
              (
                (In-select (λ f. f.id == p.group) g groups).1 (
                  j,
                  (ℕ_eq.beq_iff g.id p.group).1 (e ∙ ap (λ (x : VariantOption). x.group) same),
                ),
                pair_of g (sym same),
              ),
            ))
        | inr k ↦ inr ((In-with_groups groups ps o g).1 (k, (j, e)))
      ]),
    )

-- A product has a value on an axis: one of its groups has the axis' name and an option with the value.
abbrev pub HasValue : Collation → String → String → Catalog → Product → Type 0
HasValue collation axis v c p =
    (g : VariantGroup) × ((o : VariantOption) × (In g c.groups
        × (In o c.options
            × ((g.product ≡ p.id)
                × ((collation.iexact g.name axis ≡ true) × ((o.group ≡ g.id) × (o.value ≡ v)))))))

pub on_axis_iff :
    (collation : Collation) (axis v : String) (c : Catalog) (p : Product)
    → (on_axis collation axis (v ∷ []) c p ≡ true) ↔ HasValue collation axis v c p
on_axis_iff collation axis v c p =
    let fits : VariantGroup → Bool =
      λ g. g.product == p.id && (collation.iexact g.name axis && offers (v ∷ []) c g) in
    let has : VariantGroup → VariantOption → Bool =
      λ g o. o.group == g.id && elem o.value (v ∷ []) in
    (
      λ h.
          let (g, (i, e)) = (exists_iff fits c.groups).0 h in
          let (o, (j, d)) = (exists_iff (has g) c.options).0 (ground (arith, e)) in
          (
            g,
            (
              o,
              (
                i,
                (
                  j,
                  (
                    ground (arith, e),
                    (ground (arith, e), (ground (arith, d), ground (arith, d, eq_iff v o.value))),
                  ),
                ),
              ),
            ),
          ),
      λ (g, (o, (i, (j, (product, (named, (member, value))))))). (exists_iff fits c.groups).1 (
        g,
        (
          i,
          ground (
            arith,
            product,
            named,
            (exists_iff (has g) c.options).1
                (o, (j, ground (arith, member, value, eq_iff v o.value))),
          ),
        ),
      ),
    )
