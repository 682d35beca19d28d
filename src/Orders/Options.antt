-- ===== src/Orders/Options.antt =====
-- src/apps/orders/services.py: what a bag item resolves to in the catalog, the product, its cover and
-- the chosen options.
use boutique_backend.Prelude.{
  ℕ, String, Bool, ◌&&◌, not, Option, none, some, List, [], ◌∷◌, select, elem, dedup, head?, length,
  find?, ltb, ◌==◌, ℕ_eq, string_eq, if◌then◌else◌,
}
use boutique_backend.Prelude.Dict.{Dict, insert}
use boutique_backend.Prelude.Sorting.{order_by}
use boutique_backend.Models.{Boutique, Catalog, Product, ProductImage, VariantGroup, VariantOption}
use boutique_backend.Api.{http, Result, ok, err, get_object_or_404}

-- The rows of `VariantOption` that `_resolve_options` asks for, each with its group: those among the
-- chosen ids whose group is an axis of the product.
abbrev pub group_of : List VariantGroup → Product → VariantOption → Option VariantGroup
group_of groups product option = find? (λ g. g.id == option.group && g.product == product.id) groups

abbrev pub chosen_row :
    List VariantGroup → Product → List ℕ → VariantOption → Option (VariantOption × VariantGroup)
chosen_row groups product option_ids option =
    if elem option.id option_ids
    then elim (group_of groups product option) [ none ↦ none | some g ↦ some (option, g) ]
    else none

abbrev pub cons_some {ℓ} : {A : Type ℓ} → Option A → List A → List A
cons_some none xs = xs
cons_some (some x) xs = x ∷ xs

unfoldable pub chosen_options :
    List VariantGroup → Product → List ℕ → List VariantOption → List (VariantOption × VariantGroup)
chosen_options groups product option_ids [] = []
chosen_options groups product option_ids (o ∷ os) =
    cons_some (chosen_row groups product option_ids o) (chosen_options groups product option_ids os)

abbrev pub by_position : VariantOption → VariantOption → Bool
by_position earlier o = ltb earlier.position o.position

-- `{option.group.name: option.value for option in options}`
unfoldable pub snapshot_from : Dict String → List (VariantOption × VariantGroup) → Dict String
snapshot_from d [] = d
snapshot_from d ((o, g) ∷ rest) = snapshot_from (insert g.name o.value d) rest

-- `_resolve_options`
unfoldable pub resolve_options : Catalog → Product → List ℕ → Result (Dict String)
resolve_options c product [] = ok []
resolve_options c product (i ∷ is) =
    let options = chosen_options c.groups product (i ∷ is) (order_by by_position c.options) in
    if not (length options == length (dedup (i ∷ is)))
    then err (http 400 "An option does not belong to this product.")
    else ok (snapshot_from [] options)

-- `product.images.first()`
unfoldable pub cover_image : Catalog → Product → Option ProductImage
cover_image c product = head? (
    order_by (λ earlier i. ltb earlier.position i.position)
      (select (λ i. i.product == product.id) c.images))

unfoldable pub cover_url : Catalog → Product → String
unfolding cover_image
cover_url c product = elim (cover_image c product) [ none ↦ "" | some image ↦ image.url ]

-- `get_object_or_404(Product, store=store, id=product_id, is_visible=True)`
unfoldable pub visible_product : Catalog → Boutique → ℕ → Result Product
visible_product c store product_id =
    get_object_or_404 (λ p. p.store == store.id && (p.id == product_id && p.is_visible)) c.products
