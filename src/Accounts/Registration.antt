-- ===== src/Accounts/Registration.antt =====
-- Registration keeps identities unique and reports a clash one way; the reset tells nobody which
-- addresses have accounts.
use boutique_backend.Prelude.{
  modify, ℕ, ◌+◌, ◌≡◌, ◌≢◌, ◌∙◌, refl, sym, String, Bool, true, false, not, Option, none, some,
  find?, if◌then◌else◌, ◌==◌, ℕ_eq, string_eq, arith, eq_iff,
}
use boutique_backend.Prelude.Constraints.{IsDistinct, append-IsDistinct, modify-IsDistinct}
use boutique_backend.Models.{User, Db}
use boutique_backend.Api.{
  integrity_error, value_error, validation_error, Result, ok, err, World, Runtime, Action, ◌>>=◌,
  ◌>>◌, pure, raise, lift, atomic, modify_db, draw, varchar,
}
use boutique_backend.Api.Keeps.{
  Keeps, Keeps-pure, Keeps-raise, Keeps-lift, Keeps-if, Keeps-draw, Keeps-modify_db, Keeps-bind,
}
use boutique_backend.Orders.{on_integrity_error}
use boutique_backend.Accounts.Frame.{create_user-Keeps}
use boutique_backend.Accounts.{
  set_password, save_password, Auth, duplicate_identity, clash_user, insert_user, draft_user,
  first_user, taken, accepted, checked_password, manager_create_user, register_user, create_user,
  mail_to, send_password_reset_email, log_failure, reset_for, send_password_reset, user_of_pk,
  user_of_link, confirm_password_reset,
}
use boutique_backend.Accounts.Requests.{reset_answer, reset_request}

-- No two users share an id, an email or a phone number.
abbrev pub UsersAreUnique : Db → Type 0
UsersAreUnique db = IsDistinct clash_user db.users

clash_user_comm : (a b : User) → clash_user a b ≡ clash_user b a
clash_user_comm a b = ground (
  arith,
  eq_iff a.email b.email,
  eq_iff b.email a.email,
  eq_iff a.phone_number b.phone_number,
  eq_iff b.phone_number a.phone_number,
)

insert_user-UsersAreUnique : (u : User) → Keeps UsersAreUnique (insert_user u)
unfolding insert_user
insert_user-UsersAreUnique u = record {
  at = λ w h. ground (arith, append-IsDistinct clash_user clash_user_comm u w.db.users h);
}

module _ (auth : Auth) (rt : Runtime) where
  pub manager-UsersAreUnique :
      (password : String) (draft : User)
      → Keeps UsersAreUnique (manager_create_user auth rt password draft)
  unfolding manager_create_user
  manager-UsersAreUnique password draft =
      Keeps-if {P = UsersAreUnique} (draft.email == "") (raise value_error) _
        (Keeps-raise value_error)
        (Keeps-bind draw _ Keeps-draw λ (n : ℕ).
          Keeps-bind (lift (varchar 255 draft.name)) _ (Keeps-lift (varchar 255 draft.name)) λ _.
            Keeps-bind (lift (varchar 254 (auth.normalize_email draft.email))) _
              (Keeps-lift (varchar 254 (auth.normalize_email draft.email)))
              λ _.
                Keeps-bind (lift (varchar 13 draft.phone_number)) _
                  (Keeps-lift (varchar 13 draft.phone_number))
                  λ _. insert_user-UsersAreUnique (record draft {
                    id = rt.uuid4 n;
                    email = auth.normalize_email draft.email;
                    password = auth.make_password password;
                    created_at = rt.now n;
                  }))

  -- Registration never leaves two users with one email or one phone number, as long as what other
  -- requests commit between its check and its INSERT does not.
  pub create_user-UsersAreUnique :
      (others : Db → Db) (name email phone_number password : String)
      → ((db : Db) → UsersAreUnique db → UsersAreUnique (others db))
      → (w : World) → UsersAreUnique w.db
      → UsersAreUnique (create_user auth rt others name email phone_number password w).1.db
  create_user-UsersAreUnique others name email phone_number password keep =
      (create_user-Keeps auth rt others name email phone_number password
        (manager-UsersAreUnique password) keep).at

pub save_password-UsersAreUnique : (u : User) → Keeps UsersAreUnique (save_password u)
unfolding save_password
save_password-UsersAreUnique u =
    Keeps-bind (modify_db _) _
      (Keeps-modify_db
        (λ db. record db { users = modify (λ r. r.id == u.id) (set_password u.password) db.users })
        (λ db.
          modify-IsDistinct clash_user (λ r. r.id == u.id) (set_password u.password) (λ x y. refl)
            (λ x y. refl) db.users))
      λ _. Keeps-pure u

log_failure_lem :
    (auth : Auth) (pk : ℕ) (failed : Bool) (w : World)
    → ((log_failure auth pk failed w).0 ≡ ok tt) × ((log_failure auth pk failed w).1.db ≡ w.db)
log_failure_lem auth pk true w = (refl, refl)
log_failure_lem auth pk false w = (refl, refl)

logged_lem :
    (auth : Auth) (pk : ℕ) (found : Option User) (w : World)
    → (((mail_to auth found >>= log_failure auth pk) w).0 ≡ ok tt)
      × (((mail_to auth found >>= log_failure auth pk) w).1.db ≡ w.db)
unfolding mail_to
logged_lem auth pk none w = (refl, refl)
logged_lem auth pk (some u) w =
    log_failure_lem auth pk (not (auth.mails w.draws u)) (record w { draws = w.draws + 1 })

reset_for_lem :
    (auth : Auth) (found : Option User) (w : World)
    → ((reset_for auth found w).0 ≡ ok tt) × ((reset_for auth found w).1.db ≡ w.db)
unfolding reset_for send_password_reset_email
reset_for_lem auth none w = (refl, refl)
reset_for_lem auth (some u) w = logged_lem auth u.id (find? (λ r. r.id == u.id) w.db.users) w

answered :
    (m : Action (Unit {0})) (answer : String) (w : World)
    → (m w).0 ≡ ok tt
    → (((m >> pure answer) w).0 ≡ ok answer) × (((m >> pure answer) w).1.db ≡ (m w).1.db)
answered m answer w h = ground arith

-- What the client is told does not depend on the address: two reset requests are answered alike,
-- whoever has an account and whether the mail leaves, and none writes to the database.
pub reset_request_lem :
    (auth : Auth) (email other : String) (w : World)
    → ((reset_request auth email w).0 ≡ (reset_request auth other w).0)
      × ((reset_request auth email w).1.db ≡ w.db)
unfolding reset_request send_password_reset
reset_request_lem auth email other w =
    let found = λ (e : String). first_user (λ u. auth.iexact u.email e) w.db.users in
    let (done, kept) = reset_for_lem auth (found email) w in
    let (done_too, _) = reset_for_lem auth (found other) w in
    let (said, db) = answered (send_password_reset auth email) reset_answer w done in
    let (said_too, _) = answered (send_password_reset auth other) reset_answer w done_too in
    (said ∙ sym said_too, db ∙ kept)

clash_reported :
    (p : Result User × World) (w : World)
    → (on_integrity_error (λ (v : World). p) (raise duplicate_identity) w).0 ≢ err integrity_error
clash_reported (ok u, w') w h = ground arith
clash_reported (err integrity_error, w') w h = ground arith
clash_reported (err e, w') w h = ground arith

checked_end :
    (verdict : Option String) (others : Db → Db) (m : Action User) (w : World)
    → ((lift (accepted verdict)
          >> (modify_db others >> on_integrity_error m (raise duplicate_identity)))
        w).0
      ≢ err integrity_error
checked_end none others m w h = let w' = record w { db = others w.db } in clash_reported (m w') w' h
checked_end (some messages) others m w h = ground arith

known_end :
    (known : Bool) (m : Action User) (w : World)
    → (m w).0 ≢ err integrity_error
    → ((if known then raise duplicate_identity else m) w).0 ≢ err integrity_error
known_end true m w fine h = ground arith
known_end false m w fine h = fine h

-- Registration never lets the database's IntegrityError out.
pub create_user_lem :
    (auth : Auth) (rt : Runtime) (others : Db → Db) (name email phone_number password : String)
    (w : World)
    → (create_user auth rt others name email phone_number password w).0 ≢ err integrity_error
unfolding create_user register_user checked_password
create_user_lem auth rt others name email phone_number password w h =
    let draft = draft_user name email phone_number in
    known_end (taken auth email phone_number w.db)
      (register_user auth rt others name email phone_number password) w
      (checked_end (auth.validate_password password draft) others
        (atomic (manager_create_user auth rt password draft)) w)
      h

-- A link whose text is no UUID is not answered with a 400: Django's ValidationError leaves the handler.
pub confirm_password_reset_lem :
    (auth : Auth) (uid token password pk : String) (w : World)
    → auth.decode_uid uid ≡ some pk
    → auth.read_uuid pk ≡ none
    → confirm_password_reset auth uid token password w ≡ (err validation_error, w)
unfolding confirm_password_reset user_of_link user_of_pk
confirm_password_reset_lem auth uid token password pk w decoded garbled = ground arith
