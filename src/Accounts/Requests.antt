-- ===== src/Accounts/Requests.antt =====
-- src/apps/users: the handlers of the four controllers, and what a session says of its user
-- (schemas.py).
use boutique_backend.Prelude.{
  ℕ, String, Bool, ◌&&◌, not, Option, none, some, List, [], ◌∷◌, select, find?, is_empty, ltb, ◌==◌,
  ℕ_eq, if◌then◌else◌,
}
use boutique_backend.Prelude.Sorting.{order_by}
use boutique_backend.Models.{Boutique, Membership, User, Address, Db}
use boutique_backend.Api.{http, ok, err, Runtime, Action, pure, lift, gets, ◌>>=◌, ◌>>◌}
use boutique_backend.Tenancy.{authenticate, seller_permission}
use boutique_backend.Tenancy.Roster.{Standing}
use boutique_backend.Orders.Schemas.{fits}
use boutique_backend.Orders.Requests.{validated}
use boutique_backend.Accounts.Phone
use boutique_backend.Accounts.Phone.{Classes, read_registration}
use boutique_backend.Accounts.{
  Auth, create_user, send_password_reset, confirm_password_reset, AddressFields, add_address,
  delete_address,
}

-- `_memberships`
unfoldable pub memberships_of : User → Db → List Membership
memberships_of user db =
    order_by (λ later m. ltb m.created_at later.created_at)
      (select (λ m. m.user == user.id) db.memberships)

-- One entry of `resolve_memberships`; the foreign key always finds its boutique.
unfoldable pub standings : List Boutique → List Membership → List Standing
standings boutiques [] = []
standings boutiques (m ∷ ms) =
    let rest = standings boutiques ms in
    elim (find? (λ (b : Boutique). b.id == m.boutique) boutiques) [
      | none ↦ rest
      | some b ↦ record { slug = b.slug; name = b.name; role = m.role } ∷ rest
    ]

-- `CurrentUserSchema`
pub record CurrentUser : Type 0 where
  pub user : User
  pub is_seller : Bool
  pub memberships : List Standing

unfoldable pub current_user : User → Db → CurrentUser
current_user user db = record {
  user = user;
  is_seller = not (is_empty (memberships_of user db));
  memberships = standings db.boutiques (memberships_of user db);
}

-- `UserController.me`
unfoldable pub user_me : Option User → Action CurrentUser
user_me auth = do user ← lift (authenticate auth); gets (current_user user)

-- `AdminController.me`, behind `IsSeller`
unfoldable pub admin_me : Option User → Option User → Action CurrentUser
admin_me auth session = do
  user ← lift (authenticate auth)
  allowed ← gets (λ db. seller_permission db auth session)
  lift (if allowed then ok tt else err (http 403 "You must be a seller to access this resource."))
  gets (current_user user)

-- `AddressesController.my_addresses`
unfoldable pub my_addresses : Option User → Action (List Address)
my_addresses auth = do
  user ← lift (authenticate auth)
  gets λ db.
      order_by (λ later a. ltb a.created_at later.created_at)
        (select (λ a. a.user == user.id) db.addresses)

-- `AddressCreateSchema`
unfoldable pub read_address : AddressFields → Option AddressFields
read_address f =
    if fits 100 f.label && (fits 255 f.contact_name && (fits 20 f.phone && fits 1000 f.address))
    then some f
    else none

-- `AddressesController.add`
unfoldable pub save_address : Runtime → Option User → AddressFields → Action (ℕ × Address)
save_address rt auth body = do
  user ← lift (authenticate auth)
  fields ← lift (validated (read_address body))
  address ← add_address rt user fields
  pure (201, address)

-- `AddressesController.remove`
unfoldable pub remove_address : Option User → ℕ → Action ℕ
remove_address auth address_id = do
  user ← lift (authenticate auth)
  delete_address user address_id
  pure 204

-- `AuthController.register`; the tokens are the library's.
unfoldable pub register :
    Auth → Runtime → (Db → Db) → String → String → String → String → Action CurrentUser
register auth rt others name email phone_number password = do
  user ← create_user auth rt others name email phone_number password
  gets (current_user user)

-- `POST /auth/register`, whose body validation reads first.
unfoldable pub sign_up :
    (String → Option String)
    → Classes
    → Auth
    → Runtime
    → (Db → Db)
    → Phone.Registration
    → Action CurrentUser
sign_up read_email classes auth rt others body = do
  payload ← lift (validated (read_registration read_email classes body))
  register auth rt others payload.name payload.email payload.phone_number payload.password

abbrev pub reset_answer : String
reset_answer = "If that email has an account, a reset link is on its way."

-- `AuthController.reset_request`
unfoldable pub reset_request : Auth → String → Action String
reset_request auth email = do send_password_reset auth email; pure reset_answer

-- `AuthController.reset_confirm`
unfoldable pub reset_confirm : Auth → String → String → String → Action String
reset_confirm auth uid token password = do
  confirm_password_reset auth uid token password
  pure "Password updated. You can now sign in."
