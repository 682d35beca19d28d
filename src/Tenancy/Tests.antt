-- ===== src/Tenancy/Tests.antt =====
-- The gate of the seller endpoints, at concrete requests.
use boutique_backend.Prelude.{◌≡◌, arith, refl, inl, inr, some}
use boutique_backend.Prelude.Members.{In}
use boutique_backend.Models.{Membership, owner}
use boutique_backend.Api.{ok, err, get_object_or_404}
use boutique_backend.Samples.{zita, seller, clerk, owns_zita, works_at_zita, shop}
use boutique_backend.Tenancy.{
  Capability, forbidden, find_store, memberships_at, has_permission, admit, require_membership,
}
use boutique_backend.Tenancy.Access.{Grants, require_membership_sound}
use boutique_backend.Tenancy.Decision.{require_membership_complete, require_membership_refused}

program : Unit {0}
unfolding require_membership find_store get_object_or_404 memberships_at admit has_permission
program = tt

run-require_membership :
    require_membership seller "zita" (some Capability.manage_members) shop ≡ ok (owns_zita, zita)
unfolding program
run-require_membership = refl

require_membership_sound_example :
    In zita shop.boutiques
    × (zita.slug ≡ "zita")
    × In owns_zita shop.memberships
    × (owns_zita.user ≡ seller.id)
    × (owns_zita.boutique ≡ zita.id)
    × Grants owns_zita (some Capability.manage_members)
require_membership_sound_example =
    require_membership_sound seller "zita" (some Capability.manage_members) shop owns_zita zita
      run-require_membership

require_membership_complete_example :
    require_membership clerk "zita" (some Capability.work_orders) shop ≡ ok (works_at_zita, zita)
require_membership_complete_example =
    require_membership_complete clerk "zita" (some Capability.work_orders) shop works_at_zita zita
      (refl, (refl, tt)) (refl, (refl, tt)) (inl refl) refl (inr (inl refl)) refl refl tt

run-find_store : find_store "zita" shop ≡ ok zita
unfolding program
run-find_store = refl

-- A clerk may not manage the members.
clerk_does_not_govern :
    (m : Membership) → In m shop.memberships → m.user ≡ 12 → m.boutique ≡ 1 → ¬ (m.role ≡ owner)
clerk_does_not_govern m (inl e) own here governs = absurd (ground arith)
clerk_does_not_govern m (inr (inl e)) own here governs = absurd (ground arith)
clerk_does_not_govern m (inr (inr row)) own here governs = elim row [ ]

require_membership_refused_example :
    require_membership clerk "zita" (some Capability.manage_members) shop ≡ err forbidden
require_membership_refused_example =
    require_membership_refused clerk "zita" (some Capability.manage_members) shop zita
      run-find_store clerk_does_not_govern
