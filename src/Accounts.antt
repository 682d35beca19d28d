-- ===== src/Accounts.antt =====
-- src/apps/users: registration, the password reset and the saved addresses (services.py, managers.py,
-- tasks.py). Hashing, the password rules, the tokens, the mail and the link's coding are libraries:
-- fields of `Auth`.
mod Tests
pub mod Requests
pub mod Frame
pub mod Addresses
pub mod Registration
pub mod Phone
use boutique_backend.Prelude.{
  ℕ, ◌+◌, String, Bool, true, false, ◌&&◌, ◌||◌, not, Option, none, some, List, [], ◌∷◌, ◌++◌,
  select, reject, modify, exists, head?, find?, ltb, ◌==◌, ℕ_eq, string_eq, if◌then◌else◌,
}
use boutique_backend.Prelude.Sorting.{order_by}
use boutique_backend.Models.{User, Address, Db}
use boutique_backend.Api.{
  Error, http, integrity_error, does_not_exist, multiple_objects, value_error, validation_error,
  Result, ok, err, World, Runtime, reset_mail_failed, Action, pure, raise, lift, reads, gets,
  atomic, ◌>>=◌, ◌>>◌, modify_db, draw, varchar, get_object,
}
use boutique_backend.Orders.{on_integrity_error}

-- What the libraries and the database answer.
pub record Auth : Type 0 where
  pub iexact : String → String → Bool
  pub normalize_email : String → String
  -- the messages of a refusal, joined
  pub validate_password : String → User → Option String
  pub make_password : String → String
  pub check_token : User → String → Bool
  -- the text that a link codes, unless it is malformed, and the UUID that a text spells
  pub decode_uid : String → Option String
  pub read_uuid : String → Option ℕ
  -- whether the n-th mail leaves
  pub mails : ℕ → User → Bool

abbrev pub duplicate_identity : Error
duplicate_identity = http 409 "Email or phone number already registered"

-- The unique columns, and the primary key.
abbrev pub clash_user : User → User → Bool
clash_user a b = a.id == b.id || (a.email == b.email || a.phone_number == b.phone_number)

unfoldable pub insert_user : User → Action User
insert_user u w =
    if exists (clash_user u) w.db.users
    then (err integrity_error, w)
    else (ok u, record w { db = record w.db { users = w.db.users ++ u ∷ [] } })

-- A user that is not saved yet.
abbrev pub draft_user : String → String → String → User
draft_user name email phone_number = record {
  id = 0;
  name = name;
  email = email;
  phone_number = phone_number;
  password = "";
  is_active = true;
  is_staff = false;
  is_superuser = false;
  created_at = 0;
}

-- `qs.first()` of users, who have no ordering: by the primary key
unfoldable pub first_user : (User → Bool) → List User → Option User
first_user p users = head? (order_by (λ earlier u. ltb earlier.id u.id) (select p users))

abbrev pub set_password : String → User → User
set_password password u = record u { password = password }

-- `user.save(update_fields=["password"])`
unfoldable pub save_password : User → Action User
save_password u = do
  modify_db
      λ db. record db { users = modify (λ r. r.id == u.id) (set_password u.password) db.users }
  pure u

-- The two `except ValidationError` clauses.
abbrev pub accepted : Option String → Result (Unit {0})
accepted none = ok tt
accepted (some messages) = err (http 400 messages)

module _ (auth : Auth) where
  -- `_taken`
  unfoldable pub taken : String → String → Db → Bool
  taken email phone_number db =
      exists (λ u. auth.iexact u.email email || u.phone_number == phone_number) db.users

  unfoldable pub checked_password : String → User → Result (Unit {0})
  checked_password password user = accepted (auth.validate_password password user)

  -- `UserManager.create_user`, the other columns in the draft
  unfoldable pub manager_create_user : Runtime → String → User → Action User
  unfolding insert_user
  manager_create_user rt password draft = if draft.email == "" then raise value_error else do
    n ← draw
    lift (varchar 255 draft.name)
    lift (varchar 254 (auth.normalize_email draft.email))
    lift (varchar 13 draft.phone_number)
    insert_user (record draft {
      id = rt.uuid4 n;
      email = auth.normalize_email draft.email;
      password = auth.make_password password;
      created_at = rt.now n;
    })

  -- `UserManager.create_superuser`
  unfoldable pub create_superuser : Runtime → String → User → Action User
  create_superuser rt password draft =
      manager_create_user rt password (record draft { is_staff = true; is_superuser = true })

  -- What follows the advisory check.
  unfoldable pub register_user :
      Runtime → (Db → Db) → String → String → String → String → Action User
  register_user rt others name email phone_number password = do
    lift (checked_password password (draft_user name email phone_number))
    modify_db others
    on_integrity_error
        (atomic (manager_create_user rt password (draft_user name email phone_number)))
        (raise duplicate_identity)

  -- `others` is what other requests commit between the advisory check and the INSERT.
  unfoldable pub create_user : Runtime → (Db → Db) → String → String → String → String → Action User
  create_user rt others name email phone_number password = do
    known ← gets (taken email phone_number)
    if known
        then raise duplicate_identity
        else register_user rt others name email phone_number password

  -- `send_password_reset_email`, run in this process: whether it failed
  unfoldable pub mail_to : Option User → Action Bool
  mail_to none = pure false
  mail_to (some u) = do n ← draw; pure (not (auth.mails n u))

  unfoldable pub send_password_reset_email : ℕ → Action Bool
  send_password_reset_email pk = gets (λ db. find? (λ u. u.id == pk) db.users) >>= mail_to

  abbrev pub log_failure : ℕ → Bool → Action (Unit {0})
  log_failure pk failed w =
      if failed then (ok tt, record w { log = w.log ++ reset_mail_failed pk ∷ [] }) else (ok tt, w)

  unfoldable pub reset_for : Option User → Action (Unit {0})
  reset_for none = pure tt
  reset_for (some u) = send_password_reset_email u.id >>= log_failure u.id

  unfoldable pub send_password_reset : String → Action (Unit {0})
  send_password_reset email =
      gets (λ db. first_user (λ u. auth.iexact u.email email) db.users) >>= reset_for

  -- `User.objects.get(pk=pk)`: Django's ValidationError where the text is no UUID
  unfoldable pub user_of_pk : String → Db → Result User
  user_of_pk pk db = elim (auth.read_uuid pk) [
    | none ↦ err validation_error
    | some id ↦ get_object (λ u. u.id == id) db.users
  ]

  -- `except (TypeError, ValueError, OverflowError, User.DoesNotExist)`
  abbrev pub invalid_link : Result User → Result User
  invalid_link (ok u) = ok u
  invalid_link (err does_not_exist) = err (http 400 "Invalid reset link")
  invalid_link (err value_error) = err (http 400 "Invalid reset link")
  invalid_link (err e) = err e

  unfoldable pub user_of_link : String → Db → Result User
  unfolding user_of_pk
  user_of_link uid db = elim (auth.decode_uid uid) [
    | none ↦ invalid_link (err value_error)
    | some pk ↦ invalid_link (user_of_pk pk db)
  ]

  unfoldable pub confirm_password_reset : String → String → String → Action User
  confirm_password_reset uid token password = do
    user ← reads (user_of_link uid)
    lift (
        if auth.check_token user token
        then ok tt
        else err (http 400 "Reset link is invalid or has expired"))
    lift (checked_password password user)
    save_password (set_password (auth.make_password password) user)

-- The fields of `add_address`.
pub record AddressFields : Type 0 where
  pub label : String
  pub contact_name : String
  pub phone : String
  pub address : String

abbrev pub new_address : Runtime → ℕ → User → AddressFields → Address
new_address rt n user f = record {
  id = rt.uuid4 n;
  user = user.id;
  label = f.label;
  contact_name = f.contact_name;
  phone = f.phone;
  address = f.address;
  created_at = rt.now n;
}

unfoldable pub insert_address : Address → Action (Unit {0})
insert_address a w =
    if exists (λ b. b.id == a.id) w.db.addresses
    then (err integrity_error, w)
    else (ok tt, record w { db = record w.db { addresses = w.db.addresses ++ a ∷ [] } })

unfoldable pub add_address : Runtime → User → AddressFields → Action Address
unfolding insert_address
add_address rt user f = do
  n ← draw
  lift (varchar 100 f.label)
  lift (varchar 255 f.contact_name)
  lift (varchar 20 f.phone)
  insert_address (new_address rt n user f)
  pure (new_address rt n user f)

abbrev pub is_own_address : User → ℕ → Address → Bool
is_own_address user address_id a = a.user == user.id && a.id == address_id

unfoldable pub delete_address : User → ℕ → Action (Unit {0})
delete_address user address_id =
    modify_db λ db. record db { addresses = reject (is_own_address user address_id) db.addresses }
