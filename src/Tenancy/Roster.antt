-- ===== src/Tenancy/Roster.antt =====
-- src/apps/boutiques: the store admin's reads (services.py, selectors.py and the controller).
use boutique_backend.Prelude.{
  ℕ, String, Bool, ◌&&◌, ◌||◌, Option, none, some, List, map, select, find?, exists, length, ltb,
  ◌==◌, ℕ_eq,
}
use boutique_backend.Prelude.Sorting.{order_by}
use boutique_backend.Models.{Boutique, Membership, Role, User, Db}
use boutique_backend.Api.{Action, pure, lift, reads, gets, ◌>>=◌}
use boutique_backend.Tenancy.{Capability, require_membership, authenticate}

unfoldable pub members_of : Boutique → Db → List Membership
members_of boutique db =
    order_by (λ later m. ltb m.created_at later.created_at)
      (select (λ m. m.boutique == boutique.id) db.memberships)

-- `MemberSchema`
pub record MemberView : Type 0 where
  pub user_id : ℕ
  pub name : String
  pub email : String
  pub role : Role

-- A member as the owner's list shows him; `none` stands for a user that is not there, which the foreign
-- key excludes.
abbrev pub member_view : List User → Membership → Option MemberView
member_view users m = elim (find? (λ (u : User). u.id == m.user) users) [
  | none ↦ none
  | some u ↦ some (record { user_id = m.user; name = u.name; email = u.email; role = m.role })
]

-- A customer with the counts that the query annotates.
pub record StoreCustomer : Type 0 where
  pub user : User
  pub order_count : ℕ
  pub favorite_count : ℕ

abbrev pub is_active_at : Boutique → Db → User → Bool
is_active_at store db u =
    exists (λ o. o.customer == u.id && o.store == store.id) db.orders
    || exists (λ f. f.customer == u.id && f.store == store.id) db.favorites

abbrev pub with_activity : Boutique → Db → User → StoreCustomer
with_activity store db u = record {
  user = u;
  order_count = length (select (λ o. o.customer == u.id && o.store == store.id) db.orders);
  favorite_count = length (select (λ f. f.customer == u.id && f.store == store.id) db.favorites);
}

-- `store_customers`; the order of two names is the database's collation.
unfoldable pub store_customers : (String → String → Bool) → Boutique → Db → List StoreCustomer
store_customers collates_before store db = map (with_activity store db) (
    order_by (λ earlier u. collates_before earlier.name u.name)
      (select (is_active_at store db) db.users))

-- `MembershipSchema`
pub record Standing : Type 0 where
  pub slug : String
  pub name : String
  pub role : Role

-- `StoreAdminController.me`
unfoldable pub me : Option User → String → Action Standing
me auth slug = do
  user ← lift (authenticate auth)
  member ← reads (require_membership user slug none)
  pure (record { slug = member.1.slug; name = member.1.name; role = member.0.role })

-- `StoreAdminController.members`
unfoldable pub members : Option User → String → Action (List Membership)
members auth slug = do
  user ← lift (authenticate auth)
  member ← reads (require_membership user slug (some Capability.manage_members))
  gets (members_of member.1)

-- `StoreAdminController.customers`
unfoldable pub customers :
    (String → String → Bool) → Option User → String → Action (List StoreCustomer)
customers collates_before auth slug = do
  user ← lift (authenticate auth)
  member ← reads (require_membership user slug (some Capability.work_orders))
  gets (store_customers collates_before member.1)
