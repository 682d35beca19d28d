-- ===== src/Accounts/Phone/Stored.antt =====
-- The phone number that a registration stores.
use Prim.Native.Char.{Char, code}
use Prim.Native.String.{count}
use boutique_backend.Prelude.{
  ◌≡◌, refl, sym, ap, subst, ◌∙◌, exists, ◌==◌, string_eq, inl, inr, String, true, Option, some,
  arith, Bool-cases, Option-cases,
}
use boutique_backend.Models.{User, Db}
use boutique_backend.Api.{
  Result, ok, err, World, Runtime, ◌>>=◌, value_error, raise, lift, gets, atomic, modify_db, draw,
  varchar,
}
use boutique_backend.Api.Returns.{Returns, Returns-raise, Returns-atomic, Returns-bind, Returns-if}
use boutique_backend.Orders.Recovery.{Returns-on_integrity_error}
use boutique_backend.Accounts.{
  Auth, draft_user, clash_user, insert_user, checked_password, manager_create_user, register_user,
  create_user, taken, duplicate_identity,
}
use boutique_backend.Accounts.Requests.{CurrentUser, current_user, register, sign_up}
use boutique_backend.Accounts.Phone
use boutique_backend.Accounts.Phone.{Classes, without_separators, clean_phone, read_registration}
use boutique_backend.Accounts.Phone.Spellings.{clean_phone_lem}

-- The user who is returned has the phone number.
abbrev HasPhone : String → User → Db → Type 0
HasPhone phone user db = user.phone_number ≡ phone

insert_user-HasPhone : (u : User) → Returns (HasPhone u.phone_number) (insert_user u)
unfolding insert_user
insert_user-HasPhone u = record {
  at = λ w a h. elim (Bool-cases (exists (clash_user u) w.db.users)) [
    | inl hit ↦ absurd (ground (arith, hit, h))
    | inr free ↦
        let same : u ≡ a = ground (arith, free, h) in ap (λ (x : User). x.phone_number) (sym same)
  ];
}

module _ (auth : Auth) (rt : Runtime) where
  manager_create_user-HasPhone :
      (password : String) (draft : User)
      → Returns (HasPhone draft.phone_number) (manager_create_user auth rt password draft)
  unfolding manager_create_user
  manager_create_user-HasPhone password draft =
      Returns-if (draft.email == "") (raise value_error) _ (Returns-raise value_error) (
        Returns-bind draw _ λ n. Returns-bind (lift (varchar 255 draft.name)) _ λ _.
          Returns-bind (lift (varchar 254 (auth.normalize_email draft.email))) _
            λ _. Returns-bind (lift (varchar 13 draft.phone_number)) _ λ _. insert_user-HasPhone _)

  create_user-HasPhone :
      (others : Db → Db) (name email phone_number password : String)
      → Returns
          (HasPhone phone_number)
          (create_user auth rt others name email phone_number password)
  unfolding create_user register_user
  create_user-HasPhone others name email phone_number password =
      let draft = draft_user name email phone_number in
      Returns-bind (gets (taken auth email phone_number)) _ λ known.
        Returns-if known (raise duplicate_identity)
          (register_user auth rt others name email phone_number password)
          (Returns-raise duplicate_identity)
          (Returns-bind (lift (checked_password auth password draft)) _ λ _.
            Returns-bind (modify_db others) _ λ _.
              Returns-on_integrity_error (atomic (manager_create_user auth rt password draft))
                (raise duplicate_identity)
                (Returns-atomic (manager_create_user auth rt password draft)
                  (manager_create_user-HasPhone password draft))
                (Returns-raise duplicate_identity))

session_end :
    (phone : String) (p : Result User × World)
    → ((u : User) → p.0 ≡ ok u → u.phone_number ≡ phone)
    → (w : World) (session : CurrentUser)
    → (((λ (v : World). p) >>= λ user. gets (current_user user)) w).0 ≡ ok session
    → session.user.phone_number ≡ phone
unfolding current_user
session_end phone (ok u, w') has w session h =
    let same : record {
      user = u;
      is_seller = (current_user u w'.db).is_seller;
      memberships = (current_user u w'.db).memberships;
    }
        ≡ session =
      ground (arith, h) in
    ap (λ (s : CurrentUser). s.user.phone_number) (sym same) ∙ has u refl
session_end phone (err e, w') has w session h = absurd (ground (arith, h))

read_lem :
    (read_email : String → Option String) (classes : Classes) (body payload : Phone.Registration)
    → read_registration read_email classes body ≡ some payload
    → clean_phone classes body.phone_number ≡ some payload.phone_number
unfolding read_registration
read_lem read_email classes body payload h = elim (Option-cases (read_email body.email)) [
  | inl absent ↦ absurd (ground (arith, absent, h))
  | inr (email, found) ↦ elim (Option-cases (clean_phone classes body.phone_number)) [
    | inl absent ↦ absurd (ground (arith, found, absent, h))
    | inr (phone, cleaned) ↦
        let same : record body { email = email; phone_number = phone } ≡ payload =
          ground (arith, found, cleaned, h) in
        cleaned ∙ ap (λ (r : Phone.Registration). some r.phone_number) same
  ]
]

-- Whoever registers, has a phone number stored that is in normal form, cleaned to itself, and that has
-- thirteen characters, as many as its column, whatever other requests commit in between, as long as a
-- newline is white space and the characters of the country code are not.
pub sign_up_lem :
    (read_email : String → Option String) (classes : Classes) (auth : Auth) (rt : Runtime)
    (others : Db → Db) (body : Phone.Registration) (w : World) (session : CurrentUser)
    → without_separators classes "+2507" ≡ "+2507"
    → ((c : Char) → code c ≡ 10 → classes.is_space c ≡ true)
    → (sign_up read_email classes auth rt others body w).0 ≡ ok session
    → (clean_phone classes session.user.phone_number ≡ some session.user.phone_number)
      × (count session.user.phone_number ≡ 13)
unfolding sign_up register
sign_up_lem read_email classes auth rt others body w session plus line h =
    elim (Option-cases (read_registration read_email classes body)) [
      | inl refused ↦ absurd (ground (arith, refused, h))
      | inr (payload, found) ↦
          let same =
            session_end payload.phone_number
              (create_user auth rt others payload.name payload.email payload.phone_number
                payload.password w)
              ((create_user-HasPhone auth rt others payload.name payload.email payload.phone_number
                  payload.password).at
                w)
              w session (rw found at h) in
          let valid = read_lem read_email classes body payload found in
          subst (λ p. (clean_phone classes p ≡ some p) × (count p ≡ 13)) (sym same)
            (clean_phone_lem classes body.phone_number payload.phone_number plus line valid)
    ]
