-- ===== src/Accounts/Tests.antt =====
-- Runs of the accounts, and the theorems at concrete inputs.
use Prim.Native.String.{count}
use boutique_backend.Prelude.{false, [], arith, ℕ_eq, ◌≡◌, ◌≢◌, refl, some, ◌∷◌, string_eq}
use boutique_backend.Models.{User}
use boutique_backend.Api.{integrity_error, validation_error, ok, err, varchar}
use boutique_backend.Samples.{auth, ascii, runtime, customer, opening, shop}
use boutique_backend.Accounts.{
  insert_user, duplicate_identity, taken, checked_password, manager_create_user, register_user,
  create_user, confirm_password_reset,
}
use boutique_backend.Accounts.Requests.{
  CurrentUser, reset_request, memberships_of, standings, current_user, register, sign_up,
}
use boutique_backend.Accounts.Phone
use boutique_backend.Accounts.Phone.{Classes, clean_phone, read_registration}
use boutique_backend.Accounts.Phone.Stored.{sign_up_lem}
use boutique_backend.Accounts.Registration.{
  create_user_lem, reset_request_lem, confirm_password_reset_lem,
}

program : Unit {0}
unfolding insert_user taken checked_password manager_create_user register_user create_user varchar
program = tt

abbrev keza : User
keza = record customer {
  id = 1000;
  name = "Keza";
  email = "keza@example.com";
  phone_number = "+250788000111";
  password = "secret";
  created_at = 50;
}

run-create_user :
    (create_user auth runtime
      (λ db. db)
      "Keza"
      "keza@example.com"
      "+250788000111"
      "secret"
      opening).0
    ≡ ok keza
unfolding program
run-create_user = refl

-- test_register_rejects_a_duplicate_email
run_duplicate :
    (create_user auth runtime
      (λ db. db)
      "Aline"
      "customer@example.com"
      "+250788000111"
      "secret"
      opening).0
    ≡ err duplicate_identity
unfolding program
run_duplicate = refl

-- Somebody registers the same phone number in between.
create_user_lem_example :
    (create_user auth runtime
      (λ db. record db { users = keza ∷ db.users })
      "Keza"
      "k@example.com"
      "+250788000111"
      "secret"
      opening).0
    ≢ err integrity_error
create_user_lem_example =
    create_user_lem auth runtime (λ db. record db { users = keza ∷ db.users }) "Keza"
      "k@example.com" "+250788000111" "secret" opening

reset_request_lem_example :
    ((reset_request auth "customer@example.com" opening).0
      ≡ (reset_request auth "nobody@example.com" opening).0)
    × ((reset_request auth "customer@example.com" opening).1.db ≡ shop)
reset_request_lem_example =
    reset_request_lem auth "customer@example.com" "nobody@example.com" opening

run-garbled_link :
    confirm_password_reset auth "garbled" "token" "secret" opening ≡ (err validation_error, opening)
run-garbled_link =
    confirm_password_reset_lem auth "garbled" "token" "secret" "garbled" opening refl refl

abbrev body : Phone.Registration
body = record {
  name = "Keza";
  email = "keza@example.com";
  phone_number = "0788 000 111";
  password = "secret";
}

abbrev session : CurrentUser
session = record { user = keza; is_seller = false; memberships = [] }

run-sign_up : (sign_up (λ e. some e) ascii auth runtime (λ db. db) body opening).0 ≡ ok session
unfolding program sign_up read_registration clean_phone register current_user memberships_of
    standings
run-sign_up = refl

sign_up_lem_example :
    (clean_phone ascii "+250788000111" ≡ some "+250788000111") × (count "+250788000111" ≡ 13)
sign_up_lem_example =
    sign_up_lem (λ e. some e) ascii auth runtime (λ db. db) body opening session refl
      (λ c e. ground (arith, e)) run-sign_up
