-- ===== src/Tenancy/Decision.antt =====
-- When the constraints of the two tables hold, the gate is exactly the policy.
use boutique_backend.Prelude.{
  String, ◌≡◌, refl, ◌∙◌, inl, inr, ◌&&◌, Option, none, some, select, head?, ◌==◌, ℕ_eq, string_eq,
  arith, eq_iff,
}
use boutique_backend.Prelude.Members.{In, In-select, In-order_by, select_of_In}
use boutique_backend.Prelude.Constraints.{IsDistinct}
use boutique_backend.Models.{Boutique, Membership, User, Db}
use boutique_backend.Api.{Error, ok, err, get_object_or_404, Result-cases}
use boutique_backend.Tenancy.{
  Capability, forbidden, find_store, memberships_at, admit, require_membership,
}
use boutique_backend.Tenancy.Access.{
  clash_slug, clash_membership, Grants, admit-Grants, admit_of_Grants, first_of_In,
}

store_of_slug :
    (slug : String) (db : Db) (b : Boutique)
    → IsDistinct clash_slug db.boutiques
    → In b db.boutiques
    → b.slug ≡ slug
    → find_store slug db ≡ ok b
unfolding find_store get_object_or_404
store_of_slug slug db b d row named =
    rw
      (select_of_In (λ (r : Boutique). r.slug == slug) clash_slug
        (λ x y hx hy. ground (arith, eq_iff x.slug slug, eq_iff y.slug slug, eq_iff x.slug y.slug))
        b db.boutiques d row (ground (arith, eq_iff b.slug slug)))
      refl

-- While slugs are unique and a user has one membership at a boutique at most, a member whose role
-- grants what the route asks for passes, and gets his own membership.
pub require_membership_complete :
    (user : User) (slug : String) (c : Option Capability) (db : Db) (m : Membership) (b : Boutique)
    → IsDistinct clash_slug db.boutiques
    → IsDistinct clash_membership db.memberships
    → In b db.boutiques
    → b.slug ≡ slug
    → In m db.memberships
    → m.user ≡ user.id
    → m.boutique ≡ b.id
    → Grants m c
    → require_membership user slug c db ≡ ok (m, b)
unfolding require_membership memberships_at
require_membership_complete user slug c db m b slugs pairs store named row own here granted =
    rw
      (
        store_of_slug slug db b slugs store named,
        select_of_In (λ (r : Membership). r.user == user.id && r.boutique == b.id) clash_membership
            (λ x y hx hy. ground arith) m db.memberships pairs row (ground arith),
        admit_of_Grants m c granted,
      )
      refl

admit_err :
    (o : Option Membership) (c : Option Capability) (e : Error) → admit o c ≡ err e → e ≡ forbidden
unfolding admit
admit_err none c e h = ground arith
admit_err (some m) none e h = absurd (ground arith)
admit_err (some m) (some c) e h = ground arith

own_row :
    (user : User) (b : Boutique) (db : Db) (m : Membership)
    → head? (memberships_at user b db) ≡ some m
    → In m db.memberships × (m.user ≡ user.id) × (m.boutique ≡ b.id)
unfolding memberships_at
own_row user b db m h =
    let is_own = λ (r : Membership). r.user == user.id && r.boutique == b.id in
    let (row, fits) = (In-select is_own m db.memberships).0 (
      (In-order_by _ m (select is_own db.memberships)).0
        (first_of_In (memberships_at user b db) m h)) in
    (row, ground arith, ground arith)

refused :
    (user : User) (c : Option Capability) (db : Db) (b : Boutique)
    → ((m : Membership) → In m db.memberships → m.user ≡ user.id → m.boutique ≡ b.id → ¬ Grants m c)
    → admit (head? (memberships_at user b db)) c ≡ err forbidden
refused user c db b closed = elim (Result-cases (admit (head? (memberships_at user b db)) c)) [
  | inl (m, h) ↦
      let (first, granted) = admit-Grants (head? (memberships_at user b db)) c m h in
      let (row, own, here) = own_row user b db m first in absurd (closed m row own here granted)
  | inr (e, h) ↦ h ∙ (rw (admit_err (head? (memberships_at user b db)) c e h) refl)
]

-- At a boutique that exists, everyone without a membership that grants what the route asks for is
-- refused with one and the same answer: a stranger and a member whose role does not grant it cannot
-- tell their cases apart.
pub require_membership_refused :
    (user : User) (slug : String) (c : Option Capability) (db : Db) (b : Boutique)
    → find_store slug db ≡ ok b
    → ((m : Membership) → In m db.memberships → m.user ≡ user.id → m.boutique ≡ b.id → ¬ Grants m c)
    → require_membership user slug c db ≡ err forbidden
unfolding require_membership
require_membership_refused user slug c db b found closed =
    rw (found, refused user c db b closed) refl
