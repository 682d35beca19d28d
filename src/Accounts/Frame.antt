-- ===== src/Accounts/Frame.antt =====
-- What keeps a property of the database through the account services, whatever other requests commit
-- in the middle of a registration.
use boutique_backend.Prelude.{
  ℕ, List, [], ◌∷◌, ◌++◌, String, Bool, exists, modify, reject, ◌==◌, ℕ_eq, string_eq, inl, inr,
  Bool-cases, if◌then◌else◌,
}
use boutique_backend.Models.{User, Address, Db}
use boutique_backend.Api.{
  http, ok, err, value_error, Runtime, raise, reads, gets, atomic, modify_db, varchar,
}
use boutique_backend.Api.Keeps.{
  Keeps, Keeps-pure, Keeps-raise, Keeps-reads, Keeps-gets, Keeps-if, Keeps-atomic, Keeps-modify_db,
  Keeps-bind, Keeps-check, Keeps-drawn,
}
use boutique_backend.Orders.Recovery.{Keeps-on_integrity_error}
use boutique_backend.Accounts.{
  Auth, duplicate_identity, clash_user, insert_user, draft_user, set_password, save_password, taken,
  checked_password, manager_create_user, register_user, create_user, user_of_link,
  confirm_password_reset, AddressFields, new_address, insert_address, is_own_address, add_address,
  delete_address,
}

module _ {P : Db → Type 0} (auth : Auth) where
  -- The INSERT is all that a registration writes itself.
  pub create_user-Keeps :
      (rt : Runtime) (others : Db → Db) (name email phone_number password : String)
      → ((draft : User) → Keeps P (manager_create_user auth rt password draft))
      → ((db : Db) → P db → P (others db))
      → Keeps P (create_user auth rt others name email phone_number password)
  unfolding create_user register_user
  create_user-Keeps rt others name email phone_number password create keep =
      let draft = draft_user name email phone_number in
      Keeps-bind {P = P} (gets (taken auth email phone_number)) _
        (Keeps-gets (taken auth email phone_number))
        λ (known : Bool).
          Keeps-if known (raise duplicate_identity) _ (Keeps-raise duplicate_identity) (
            Keeps-check P (checked_password auth password draft) _ λ _.
              Keeps-bind (modify_db others) _ (Keeps-modify_db others keep) λ _.
                Keeps-on_integrity_error (atomic (manager_create_user auth rt password draft))
                  (raise duplicate_identity)
                  (Keeps-atomic (manager_create_user auth rt password draft) (create draft))
                  (Keeps-raise duplicate_identity))

  -- The new password is all that a reset writes.
  pub confirm_password_reset-Keeps :
      (uid token password : String)
      → ((u : User) → Keeps P (save_password u))
      → Keeps P (confirm_password_reset auth uid token password)
  unfolding confirm_password_reset
  confirm_password_reset-Keeps uid token password save =
      Keeps-bind (reads (user_of_link auth uid)) _ (Keeps-reads (user_of_link auth uid))
        λ (user : User).
          Keeps-check P
            (if auth.check_token user token
              then ok tt
              else err (http 400 "Reset link is invalid or has expired"))
            _
            λ _.
              Keeps-check P (checked_password auth password user) _
                λ _. save (set_password (auth.make_password password) user)

  -- What no write of users can break.
  module _ (free : (db : Db) (users : List User) → P db → P (record db { users = users })) where
    insert_user-Keeps : (u : User) → Keeps P (insert_user u)
    unfolding insert_user
    insert_user-Keeps u = record {
      at = λ w h. elim (Bool-cases (exists (clash_user u) w.db.users)) [
        | inl hit ↦ rw hit h
        | inr fresh ↦ rw fresh (free w.db (w.db.users ++ u ∷ []) h)
      ];
    }

    pub manager_create_user-Keeps :
        (rt : Runtime) (password : String) (draft : User)
        → Keeps P (manager_create_user auth rt password draft)
    unfolding manager_create_user
    manager_create_user-Keeps rt password draft =
        Keeps-if {P = P} (draft.email == "") (raise value_error) _ (Keeps-raise value_error) (
          Keeps-drawn P _ λ n. Keeps-check P (varchar 255 draft.name) _ λ _.
            Keeps-check P (varchar 254 (auth.normalize_email draft.email)) _ λ _.
              Keeps-check P (varchar 13 draft.phone_number) _ λ _. insert_user-Keeps (record draft {
                id = rt.uuid4 n;
                email = auth.normalize_email draft.email;
                password = auth.make_password password;
                created_at = rt.now n;
              }))

    pub save_password-Keeps : (u : User) → Keeps P (save_password u)
    unfolding save_password
    save_password-Keeps u =
        Keeps-bind (modify_db _) _
          (Keeps-modify_db
            (λ db. record db {
              users = modify (λ r. r.id == u.id) (set_password u.password) db.users;
            })
            (λ db. free db _))
          λ _. Keeps-pure u

-- The INSERT is all that a new address writes.
pub add_address-Keeps :
    {P : Db → Type 0} (insert : (a : Address) → Keeps P (insert_address a)) (rt : Runtime)
    (user : User) (f : AddressFields)
    → Keeps P (add_address rt user f)
unfolding add_address
add_address-Keeps {P} insert rt user f = Keeps-drawn P _ λ n.
    Keeps-check P (varchar 100 f.label) _ λ _. Keeps-check P (varchar 255 f.contact_name) _ λ _.
      Keeps-check P (varchar 20 f.phone) _ λ _.
        Keeps-bind (insert_address (new_address rt n user f)) _ (insert (new_address rt n user f))
          λ _. Keeps-pure (new_address rt n user f)

-- What no write of addresses can break.
module _ {P : Db → Type 0}
    (free : (db : Db) (addresses : List Address)
      → P db
      → P (record db { addresses = addresses })) where
  pub insert_address-Keeps : (a : Address) → Keeps P (insert_address a)
  unfolding insert_address
  insert_address-Keeps a = record {
    at = λ w h. elim (Bool-cases (exists (λ b. b.id == a.id) w.db.addresses)) [
      | inl hit ↦ rw hit h
      | inr fresh ↦ rw fresh (free w.db (w.db.addresses ++ a ∷ []) h)
    ];
  }

  pub delete_address-Keeps :
      (user : User) (address_id : ℕ) → Keeps P (delete_address user address_id)
  unfolding delete_address
  delete_address-Keeps user address_id =
      Keeps-modify_db
        (λ db. record db { addresses = reject (is_own_address user address_id) db.addresses })
        (λ db. free db _)
