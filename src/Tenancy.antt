-- ===== src/Tenancy.antt =====
-- src/apps/boutiques: the capabilities of a membership (permissions.py), the gate of the seller
-- endpoints (controllers/base.py), and the gate of the global seller surface
-- (src/api/v1/permissions.py). `JWTAuth` is a library: a request carries the user that it found, or
-- none.
pub mod Access
pub mod Decision
pub mod Roster
mod Tests
use boutique_backend.Prelude.{
  String, Bool, true, false, ◌&&◌, not, Option, none, some, List, select, exists, head?, ◌==◌, ℕ_eq,
  string_eq, ltb, if◌then◌else◌,
}
use boutique_backend.Prelude.Sorting.{order_by}
use boutique_backend.Models.{Boutique, Membership, User, Db, is_owner}
use boutique_backend.Api.{Error, http, Result, ok, err, and_then, get_object_or_404}

pub data Capability : Type 0 where
  work_orders work_chat manage_catalog manage_members edit_store_settings : Capability

-- `capability in _GOVERNANCE`
abbrev pub is_governance : Capability → Bool
is_governance Capability.manage_members = true
is_governance Capability.edit_store_settings = true
is_governance _ = false

unfoldable pub has_permission : Membership → Capability → Bool
has_permission membership capability =
    if is_governance capability then is_owner membership else true

abbrev pub forbidden : Error
forbidden = http 403 "You do not have access to this boutique."

-- `get_object_or_404(Boutique, slug=slug)`, the `_store` of every controller
unfoldable pub find_store : String → Db → Result Boutique
find_store slug db = get_object_or_404 (λ b. b.slug == slug) db.boutiques

-- `user.memberships` at a boutique, newest first.
unfoldable pub memberships_at : User → Boutique → Db → List Membership
memberships_at user boutique db =
    order_by (λ later m. ltb m.created_at later.created_at)
      (select (λ m. m.user == user.id && m.boutique == boutique.id) db.memberships)

-- The two refusals of `require_membership`, after the boutique is found.
unfoldable pub admit : Option Membership → Option Capability → Result Membership
unfolding has_permission
admit none capability = err forbidden
admit (some membership) none = ok membership
admit (some membership) (some capability) =
    if not (has_permission membership capability) then err forbidden else ok membership

-- The membership comes with its boutique, as `select_related` loads it.
unfoldable pub require_membership :
    User → String → Option Capability → Db → Result (Membership × Boutique)
require_membership user slug capability db = and_then (find_store slug db) λ boutique.
    and_then (admit (head? (memberships_at user boutique db)) capability)
      λ membership. ok (membership, boutique)

-- `JWTAuth` in front of a handler.
unfoldable pub authenticate : Option User → Result User
authenticate none = err (http 401 "Unauthorized")
authenticate (some user) = ok user

-- `User.is_seller`
unfoldable pub is_seller : Db → User → Bool
is_seller db user = exists (λ m. m.user == user.id) db.memberships

-- `IsSeller.has_permission`, on `request.auth`, or else on the user of Django's session.
unfoldable pub seller_permission : Db → Option User → Option User → Bool
unfolding is_seller
seller_permission db (some user) session = is_seller db user
seller_permission db none (some user) = is_seller db user
seller_permission db none none = false
