-- ===== src/Api/Keeps.antt =====
-- What an action keeps of the database, whether it returns or raises: a rule for each way to build
-- an action.
use boutique_backend.Prelude.{ℕ, Bool, true, false, if◌then◌else◌}
use boutique_backend.Models.{Db}
use boutique_backend.Api.{
  Error, Result, ok, err, World, Action, ◌>>=◌, atomic, pure, raise, lift, reads, gets, draw,
  modify_db,
}

pub record Keeps {A : Type 0} (P : Db → Type 0) (m : Action A) : Type 0 where
  pub at : (w : World) → P w.db → P (m w).1.db

atomic_end :
    {A : Type 0} (P : Db → Type 0) (db : Db) (p : Result A × World)
    → P db
    → P p.1.db
    → P (atomic (λ (v : World). p) (record p.1 { db = db })).1.db
atomic_end P db (ok a, w') h k = k
atomic_end P db (err e, w') h k = h

module _ {A : Type 0} {P : Db → Type 0} where
  pub Keeps-pure : (a : A) → Keeps P (pure a)
  Keeps-pure a = record { at = λ w h. h }

  pub Keeps-raise : (e : Error) → Keeps P (raise {A = A} e)
  Keeps-raise e = record { at = λ w h. h }

  pub Keeps-lift : (r : Result A) → Keeps P (lift r)
  Keeps-lift r = record { at = λ w h. h }

  pub Keeps-reads : (f : Db → Result A) → Keeps P (reads f)
  Keeps-reads f = record { at = λ w h. h }

  pub Keeps-gets : (f : Db → A) → Keeps P (gets f)
  Keeps-gets f = record { at = λ w h. h }

  pub Keeps-if : (b : Bool) (m n : Action A) → Keeps P m → Keeps P n → Keeps P (if b then m else n)
  Keeps-if true m n km kn = km
  Keeps-if false m n km kn = kn

  -- A rollback restores what held before.
  pub Keeps-atomic : (m : Action A) → Keeps P m → Keeps P (atomic m)
  Keeps-atomic m k = record { at = λ w h. atomic_end P w.db (m w) h (k.at w h) }

pub Keeps-draw : {P : Db → Type 0} → Keeps P draw
Keeps-draw = record { at = λ w h. h }

pub Keeps-modify_db :
    {P : Db → Type 0} (f : Db → Db) → ((db : Db) → P db → P (f db)) → Keeps P (modify_db f)
Keeps-modify_db f k = record { at = λ w h. k w.db h }

module _ {A B : Type 0} {P : Db → Type 0} where
  bind_end :
      (f : A → Action B)
      → ((a : A) → Keeps P (f a))
      → (w : World) (p : Result A × World) → P p.1.db
      → P (((λ (v : World). p) >>= f) w).1.db
  bind_end f kf w (ok a, w') h = (kf a).at w' h
  bind_end f kf w (err e, w') h = h

  pub Keeps-bind :
      (m : Action A) (f : A → Action B) → Keeps P m → ((a : A) → Keeps P (f a)) → Keeps P (m >>= f)
  Keeps-bind m f km kf = record { at = λ w h. bind_end f kf w (m w) (km.at w h) }

-- A check that may raise, and a draw, in front of the rest of a block.
module _ {B : Type 0} (P : Db → Type 0) where
  pub Keeps-check :
      {A : Type 0} (r : Result A) (f : A → Action B)
      → ((a : A) → Keeps P (f a))
      → Keeps P (lift r >>= f)
  Keeps-check r f kf = Keeps-bind (lift r) f (Keeps-lift r) kf

  pub Keeps-drawn : (f : ℕ → Action B) → ((n : ℕ) → Keeps P (f n)) → Keeps P (draw >>= f)
  Keeps-drawn f kf = Keeps-bind draw f Keeps-draw kf
