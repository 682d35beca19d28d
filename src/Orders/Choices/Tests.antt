-- ===== src/Orders/Choices/Tests.antt =====
-- The theorem on option ids at a concrete input.
use boutique_backend.Prelude.{ℕ, String, ◌≡◌, ◌↔◌, refl, [], ◌∷◌}
use boutique_backend.Prelude.Dict.{Dict}
use boutique_backend.Prelude.Members.{In}
use boutique_backend.Api.{http, ok, err}
use boutique_backend.Samples.{gown, stock}
use boutique_backend.Orders.Options.{chosen_options, snapshot_from, resolve_options}
use boutique_backend.Orders.Choices.{IsChoice, resolve_options_iff}

run-resolve_options :
    resolve_options stock gown (71 ∷ 70 ∷ 71 ∷ []) ≡ ok (("Colour", "Red") ∷ ("Size", "M") ∷ [])
unfolding resolve_options chosen_options snapshot_from
run-resolve_options = refl

run-stray :
    resolve_options stock gown (70 ∷ 99 ∷ [])
    ≡ err (http 400 "An option does not belong to this product.")
unfolding resolve_options chosen_options snapshot_from
run-stray = refl

resolve_options_iff_example :
    ((s : Dict String) × (resolve_options stock gown (70 ∷ 99 ∷ []) ≡ ok s))
    ↔ ((i : ℕ) → In i (70 ∷ 99 ∷ []) → IsChoice stock gown i)
resolve_options_iff_example = resolve_options_iff stock gown (70 ∷ 99 ∷ []) (refl, (refl, tt))
