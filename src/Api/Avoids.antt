-- ===== src/Api/Avoids.antt =====
-- Which error an action never ends with: a rule for each way to build an action.
use boutique_backend.Prelude.{◌≢◌, arith, Bool, true, false, if◌then◌else◌}
use boutique_backend.Prelude.Int.{ℤ, pos, negsuc}
use boutique_backend.Prelude.{ℕ, String, ltb, List, [], ◌∷◌, select}
use boutique_backend.Models.{Db}
use boutique_backend.Api.{
  Error, integrity_error, data_error, Result, ok, err, World, Action, ◌>>=◌, pure, raise, lift,
  reads, gets, atomic, draw, modify_db, positive_integer, varchar, http, multiple_objects,
  get_object_or_404,
}

pub record Avoids {A : Type 0} (e : Error) (m : Action A) : Type 0 where
  pub at : (w : World) → (m w).0 ≢ err e

module _ {A : Type 0} (e : Error) where
  pub Avoids-pure : (a : A) → Avoids e (pure a)
  Avoids-pure a = record { at = λ w h. ground arith }

  pub Avoids-raise : (d : Error) → d ≢ e → Avoids e (raise {A = A} d)
  Avoids-raise d differs = record { at = λ w h. differs (ground arith) }

  pub Avoids-lift : (r : Result A) → r ≢ err e → Avoids e (lift r)
  Avoids-lift r fine = record { at = λ w h. fine h }

  pub Avoids-gets : (f : Db → A) → Avoids e (gets f)
  Avoids-gets f = record { at = λ w h. ground arith }

  pub Avoids-reads : (f : Db → Result A) → ((db : Db) → f db ≢ err e) → Avoids e (reads f)
  Avoids-reads f fine = record { at = λ w h. fine w.db h }

  atomic_end :
      (p : Result A × World) (w : World) → p.0 ≢ err e → (atomic (λ (v : World). p) w).0 ≢ err e
  atomic_end (ok a, w') w fine h = ground arith
  atomic_end (err d, w') w fine h = fine h

  pub Avoids-atomic : (m : Action A) → Avoids e m → Avoids e (atomic m)
  Avoids-atomic m k = record { at = λ w h. atomic_end (m w) w (k.at w) h }

  pub Avoids-if :
      (b : Bool) (m n : Action A) → Avoids e m → Avoids e n → Avoids e (if b then m else n)
  Avoids-if true m n k l = k
  Avoids-if false m n k l = l

pub Avoids-draw : (e : Error) → Avoids e draw
Avoids-draw e = record { at = λ w h. ground arith }

pub Avoids-modify_db : (e : Error) (f : Db → Db) → Avoids e (modify_db f)
Avoids-modify_db e f = record { at = λ w h. ground arith }

module _ {A B : Type 0} (e : Error) where
  bind_end :
      (f : A → Action B) (p : Result A × World) (w : World)
      → p.0 ≢ err e
      → ((a : A) → Avoids e (f a))
      → (((λ (v : World). p) >>= f) w).0 ≢ err e
  bind_end f (ok a, w') w fine k h = (k a).at w' h
  bind_end f (err d, w') w fine k h = fine (ground (arith, h))

  pub Avoids-bind :
      (m : Action A) (f : A → Action B)
      → Avoids e m
      → ((a : A) → Avoids e (f a))
      → Avoids e (m >>= f)
  Avoids-bind m f km kf = record { at = λ w h. bind_end f (m w) w (km.at w) kf h }

-- What a column refuses, it refuses with a database error.
pub varchar_err : (e : Error) (n : ℕ) (s : String) → data_error ≢ e → varchar n s ≢ err e
unfolding varchar
varchar_err e n s differs h = elim (ltb n (Prim.Native.String.count s)) [
  | true ↦ differs (ground (arith, h))
  | false ↦ differs (ground (arith, h))
]

pub positive_integer_err :
    (e : Error) (n : ℤ) → data_error ≢ e → integrity_error ≢ e → positive_integer n ≢ err e
unfolding positive_integer
positive_integer_err e (pos n) differs too h = differs (ground (arith, h))
positive_integer_err e (negsuc n) differs too h = too (ground (arith, h))

pub get_object_or_404_err :
    {A : Type 0} (e : Error) (p : A → Bool) (rows : List A)
    → http 404 "Not Found" ≢ e
    → multiple_objects ≢ e
    → get_object_or_404 p rows ≢ err e
unfolding get_object_or_404
get_object_or_404_err e p rows absent many h = elim (select p rows) [
  | [] ↦ absent (ground (arith, h))
  | x ∷ [] ↦ ground (arith, h)
  | x ∷ (y ∷ ys) ↦ many (ground (arith, h))
]

-- A check that may raise, and a draw, in front of the rest of a block.
module _ {B : Type 0} (e : Error) where
  pub Avoids-check :
      {A : Type 0} (r : Result A) (f : A → Action B)
      → r ≢ err e
      → ((a : A) → Avoids e (f a))
      → Avoids e (lift r >>= f)
  Avoids-check r f fine kf = Avoids-bind e (lift r) f (Avoids-lift e r fine) kf

  pub Avoids-drawn : (f : ℕ → Action B) → ((n : ℕ) → Avoids e (f n)) → Avoids e (draw >>= f)
  Avoids-drawn f kf = Avoids-bind e draw f (Avoids-draw e) kf
