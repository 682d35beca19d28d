-- ===== src/Tenancy/Access.antt =====
-- Who passes `require_membership`, and what everybody else is told.
use boutique_backend.Prelude.{
  String, ◌≡◌, refl, inl, Bool, ◌&&◌, Option, none, some, List, [], ◌∷◌, select, head?, ◌==◌, ℕ_eq,
  string_eq, arith, eq_iff,
}
use boutique_backend.Prelude.Members.{In, In-select, In-order_by}
use boutique_backend.Models.{Boutique, Membership, owner, User, Db}
use boutique_backend.Api.{ok, get_object_or_404}
use boutique_backend.Tenancy.{Capability, find_store, memberships_at, admit, require_membership}

-- The constraints of the two tables.
abbrev pub clash_slug : Boutique → Boutique → Bool
clash_slug a b = a.slug == b.slug

abbrev pub clash_membership : Membership → Membership → Bool
clash_membership a b = a.user == b.user && a.boutique == b.boutique

-- The policy in words: managing members and editing the settings are the owner's, the rest is open to
-- any member.
abbrev pub Grants : Membership → Option Capability → Type 0
Grants m none = Unit
Grants m (some Capability.manage_members) = m.role ≡ owner
Grants m (some Capability.edit_store_settings) = m.role ≡ owner
Grants m (some Capability.work_orders) = Unit
Grants m (some Capability.work_chat) = Unit
Grants m (some Capability.manage_catalog) = Unit

pub first_of_In : (l : List Membership) (m : Membership) → head? l ≡ some m → In m l
first_of_In [] m h = cc
first_of_In (x ∷ xs) m h = inl (ground arith)

pub admit-Grants :
    (o : Option Membership) (c : Option Capability) (m : Membership)
    → admit o c ≡ ok m
    → (o ≡ some m) × Grants m c
unfolding admit
admit-Grants none c m h = cc
admit-Grants (some r) none m h = (ground arith, tt)
admit-Grants (some r) (some Capability.manage_members) m h = ground arith
admit-Grants (some r) (some Capability.edit_store_settings) m h = ground arith
admit-Grants (some r) (some Capability.work_orders) m h = ground arith
admit-Grants (some r) (some Capability.work_chat) m h = ground arith
admit-Grants (some r) (some Capability.manage_catalog) m h = ground arith

pub admit_of_Grants :
    (m : Membership) (c : Option Capability) → Grants m c → admit (some m) c ≡ ok m
unfolding admit
admit_of_Grants m none h = refl
admit_of_Grants m (some Capability.manage_members) h = ground arith
admit_of_Grants m (some Capability.edit_store_settings) h = ground arith
admit_of_Grants m (some Capability.work_orders) h = refl
admit_of_Grants m (some Capability.work_chat) h = refl
admit_of_Grants m (some Capability.manage_catalog) h = refl

found_store :
    (slug : String) (db : Db) (b : Boutique)
    → find_store slug db ≡ ok b
    → select (λ (r : Boutique). r.slug == slug) db.boutiques ≡ b ∷ []
unfolding find_store get_object_or_404
found_store slug db b h = ground arith

require_membership_cases :
    (user : User) (slug : String) (c : Option Capability) (db : Db) (m : Membership) (b : Boutique)
    → require_membership user slug c db ≡ ok (m, b)
    → (find_store slug db ≡ ok b) × (admit (head? (memberships_at user b db)) c ≡ ok m)
unfolding require_membership
require_membership_cases user slug c db m b h = ground arith

-- Whoever passes has a membership of his own at the boutique that the slug names, and it grants what
-- the route asks for.
pub require_membership_sound :
    (user : User) (slug : String) (c : Option Capability) (db : Db) (m : Membership) (b : Boutique)
    → require_membership user slug c db ≡ ok (m, b)
    → In b db.boutiques
      × (b.slug ≡ slug)
      × In m db.memberships
      × (m.user ≡ user.id)
      × (m.boutique ≡ b.id)
      × Grants m c
unfolding memberships_at
require_membership_sound user slug c db m b h =
    let (found, admitted) = require_membership_cases user slug c db m b h in
    let (first, granted) = admit-Grants (head? (memberships_at user b db)) c m admitted in
    let is_here = λ (r : Boutique). r.slug == slug in
    let is_own = λ (r : Membership). r.user == user.id && r.boutique == b.id in
    let store =
      (In-select is_here b db.boutiques).0 (rw (found_store slug db b found) (inl refl)) in
    let own = (In-select is_own m db.memberships).0 (
      (In-order_by _ m (select is_own db.memberships)).0
        (first_of_In (memberships_at user b db) m first)) in
    (store.0, (eq_iff b.slug slug).0 store.1, own.0, ground arith, ground arith, granted)
