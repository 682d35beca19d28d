-- ===== src/Api.antt =====
-- What the services run in: the database, what leaves the process, and the exceptions that a call
-- may raise. A failed call keeps what it wrote, unless `transaction.atomic` rolls it back: the
-- settings have no ATOMIC_REQUESTS.
pub mod Bind
pub mod Keeps
pub mod Returns
pub mod Avoids
pub mod Leads
use boutique_backend.Prelude.{
  ℕ, ◌+◌, arith, ◌≡◌, refl, ◌⊎◌, inl, inr, String, Bool, List, [], ◌∷◌, select, ltb, if◌then◌else◌,
}
use boutique_backend.Prelude.Int.{ℤ, pos, negsuc}
use boutique_backend.Models.{Db, Status}
use Prim.Native.String.{count}

-- `http s d` is ninja's HttpError, Http404 or PermissionDenied. Ninja answers the others with 500.
pub data Error : Type 0 where
  http : ℕ → String → Error
  integrity_error data_error does_not_exist multiple_objects value_error validation_error : Error
  -- a loop of the model that ran out of rounds
  out_of_fuel : Error
  -- an exception of the push library that is no WebPushException
  push_error : Error

pub data Result {ℓ} (A : Type ℓ) : Type ℓ where
  ok : A → Result A
  err : Error → Result A

-- The JSON body of a push.
pub data PushPayload : Type 0 where
  order_status : String → ℕ → Status → PushPayload
  new_arrival : String → ℕ → String → String → PushPayload

-- The arguments of one call of `webpush`.
pub record PushCall : Type 0 where
  pub endpoint : String
  pub p256dh : String
  pub auth : String
  pub payload : PushPayload
  pub vapid_private_key : String
  pub vapid_subject : String

-- The lines that the services write to the log.
pub data LogEntry : Type 0 where
  push_failed : ℕ → LogEntry
  reset_mail_failed : ℕ → LogEntry

-- `draws` counts the calls of uuid4 and of the clock, which no rollback takes back.
pub record World : Type 0 where
  pub db : Db
  pub draws : ℕ
  pub pushes : List PushCall
  pub log : List LogEntry

-- `uuid.uuid4` and the database's clock, by the number of calls before.
pub record Runtime : Type 0 where
  pub uuid4 : ℕ → ℕ
  pub now : ℕ → ℕ

abbrev pub Action : Type 0 → Type 0
Action A = World → Result A × World

module _ {A : Type 0} where
  abbrev pub pure : A → Action A
  pure a w = (ok a, w)

  abbrev pub raise : Error → Action A
  raise e w = (err e, w)

  abbrev pub lift : Result A → Action A
  lift r w = (r, w)

  -- A query that may raise.
  abbrev pub reads : (Db → Result A) → Action A
  reads f w = (f w.db, w)

  abbrev pub gets : (Db → A) → Action A
  gets f w = (ok (f w.db), w)

  -- `with transaction.atomic()`: an exception undoes the writes, not the calls that left.
  abbrev pub atomic : Action A → Action A
  atomic m w =
      let (r, w') = m w in elim r [ ok a ↦ (ok a, w') | err e ↦ (err e, record w' { db = w.db }) ]

infixl 5 ◌>>=◌ ◌>>◌
abbrev pub ◌>>=◌ : {A B : Type 0} → Action A → (A → Action B) → Action B
◌>>=◌ m f w = let (r, w') = m w in elim r [ ok a ↦ f a w' | err e ↦ (err e, w') ]

abbrev pub ◌>>◌ : {A B : Type 0} → Action A → Action B → Action B
m >> k = m >>= λ _. k

abbrev pub modify_db : (Db → Db) → Action (Unit {0})
modify_db f w = (ok tt, record w { db = f w.db })

abbrev pub and_then : {A B : Type 0} → Result A → (A → Result B) → Result B
and_then (ok a) f = f a
and_then (err e) f = err e

-- The number of the next row, which its id and its timestamp are drawn by.
abbrev pub draw : Action ℕ
draw w = (ok w.draws, record w { draws = w.draws + 1 })

module _ {ℓ} {A : Type ℓ} where
  abbrev only_row : Error → List A → Result A
  only_row absent [] = err absent
  only_row absent (x ∷ []) = ok x
  only_row absent (x ∷ y ∷ xs) = err multiple_objects

  -- `get_object_or_404(qs, p)`
  unfoldable pub get_object_or_404 : (A → Bool) → List A → Result A
  get_object_or_404 p rows = only_row (http 404 "Not Found") (select p rows)

  -- `qs.get(p)`
  unfoldable pub get_object : (A → Bool) → List A → Result A
  get_object p rows = only_row does_not_exist (select p rows)

-- The largest PositiveIntegerField of PostgreSQL.
abbrev pub max_integer : ℕ
max_integer = 2147483647

-- What a PositiveIntegerField makes of a number: the CHECK constraint refuses a negative one, and
-- the column type one that is too large.
unfoldable pub positive_integer : ℤ → Result ℕ
positive_integer (pos n) = if ltb max_integer n then err data_error else ok n
positive_integer (negsuc n) = err integrity_error

-- What a CharField(max_length=n) makes of a text.
unfoldable pub varchar : ℕ → String → Result String
varchar n s = if ltb n (count s) then err data_error else ok s

pub Result-cases {ℓ} :
    {A : Type ℓ} (r : Result A) → ((a : A) × (r ≡ ok a)) ⊎ ((e : Error) × (r ≡ err e))
Result-cases (ok a) = inl (a, refl)
Result-cases (err e) = inr (e, refl)

-- A number that a column takes is stored as it is.
pub positive_integer_lem :
    (n t : ℕ) → positive_integer (pos n) ≡ ok t → positive_integer (pos n) ≡ ok n
unfolding positive_integer
positive_integer_lem n t h = ground arith
