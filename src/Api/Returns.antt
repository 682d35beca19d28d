-- ===== src/Api/Returns.antt =====
-- What holds of a value that an action returns and of the database it leaves: a rule for each way to
-- build an action.
use boutique_backend.Prelude.{◌≡◌, arith, Bool, true, false, if◌then◌else◌}
use boutique_backend.Models.{Db}
use boutique_backend.Api.{Error, Result, ok, err, World, Action, ◌>>=◌, atomic, raise}

pub record Returns {A : Type 0} (Q : A → Db → Type 0) (m : Action A) : Type 0 where
  pub at : (w : World) (a : A) → (m w).0 ≡ ok a → Q a (m w).1.db

module _ {A : Type 0} where
  pub Returns-raise : {Q : A → Db → Type 0} (e : Error) → Returns Q (raise e)
  Returns-raise e = record { at = λ w a h. ground arith }

  pub Returns-if :
      {Q : A → Db → Type 0} (b : Bool) (m n : Action A)
      → Returns Q m
      → Returns Q n
      → Returns Q (if b then m else n)
  Returns-if true m n k l = k
  Returns-if false m n k l = l

  atomic_end :
      (Q : A → Db → Type 0) (a : A) (p : Result A × World)
      → ((b : A) → p.0 ≡ ok b → Q b p.1.db)
      → (w : World) → (atomic (λ (v : World). p) w).0 ≡ ok a
      → Q a (atomic (λ (v : World). p) w).1.db
  atomic_end Q a (ok b, w') k w h = k a h
  atomic_end Q a (err e, w') k w h = absurd (ground arith)

  pub Returns-atomic : {Q : A → Db → Type 0} (m : Action A) → Returns Q m → Returns Q (atomic m)
  Returns-atomic {Q = Q} m k = record { at = λ w a h. atomic_end Q a (m w) (k.at w) w h }

module _ {A B : Type 0} where
  bind_end :
      (Q : B → Db → Type 0) (f : A → Action B) (b : B)
      → ((a : A) → Returns Q (f a))
      → (w : World) (p : Result A × World) → (((λ (v : World). p) >>= f) w).0 ≡ ok b
      → Q b (((λ (v : World). p) >>= f) w).1.db
  bind_end Q f b k w (ok a, w') h = (k a).at w' b h
  bind_end Q f b k w (err e, w') h = absurd (ground arith)

  -- Only the last step of a block says what it returns.
  pub Returns-bind :
      {Q : B → Db → Type 0} (m : Action A) (f : A → Action B)
      → ((a : A) → Returns Q (f a))
      → Returns Q (m >>= f)
  Returns-bind {Q = Q} m f k = record { at = λ w b h. bind_end Q f b k w (m w) h }
