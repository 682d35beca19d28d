-- ===== src/Api/Leads.antt =====
-- What holds of the database before an action, and of the value and the database after it returns: a
-- rule for each way to build an action.
use boutique_backend.Prelude.{ℕ, ◌+◌, ◌≡◌, refl, arith}
use boutique_backend.Models.{Db}
use boutique_backend.Api.{
  Result, ok, err, World, Action, ◌>>=◌, atomic, pure, lift, reads, gets, draw,
}
use boutique_backend.Api.Keeps.{Keeps}
use boutique_backend.Api.Returns.{Returns}

pub record Leads {A : Type 0} (P : Db → Type 0) (m : Action A) (Q : A → Db → Type 0) : Type 0 where
  pub at : (w : World) (a : A) → (m w).0 ≡ ok a → P w.db → Q a (m w).1.db

module _ {A : Type 0} where
  pub Leads-pure :
      {P : Db → Type 0} {Q : A → Db → Type 0} (a : A)
      → ((db : Db) → P db → Q a db)
      → Leads P (pure a) Q
  Leads-pure {P = P} {Q = Q} a k = record { at = λ w b e h. pure_end Q a b e w.db (k w.db h) }
    where
      pure_end : (Q : A → Db → Type 0) (a b : A) → ok a ≡ ok b → (db : Db) → Q a db → Q b db
      pure_end Q a b e db h = let same : a ≡ b = ground (arith, e) in rw (← same) h

  undone :
      (P : Db → Type 0) (db : Db) (p : Result A × World)
      → P db
      → ((a : A) → p.0 ≡ ok a → P p.1.db)
      → P (atomic (λ (v : World). p) (record p.1 { db = db })).1.db
  undone P db (ok a, w') h k = k a refl
  undone P db (err e, w') h k = h

  -- A transaction keeps what its body restores by its end.
  pub Keeps-atomic_of_Leads :
      {P : Db → Type 0} (m : Action A) → Leads P m (λ a. P) → Keeps P (atomic m)
  Keeps-atomic_of_Leads {P = P} m l = record {
    at = λ w h. undone P w.db (m w) h (λ a e. l.at w a e h);
  }

module _ {A B : Type 0} where
  bind_end :
      (Q : A → Db → Type 0) (R : B → Db → Type 0) (f : A → Action B) (b : B)
      → ((a : A) → Leads (Q a) (f a) R)
      → (w : World) (p : Result A × World) → ((a : A) → p.0 ≡ ok a → Q a p.1.db)
      → (((λ (v : World). p) >>= f) w).0 ≡ ok b
      → R b (((λ (v : World). p) >>= f) w).1.db
  bind_end Q R f b k w (ok a, w') h e = (k a).at w' b e (h a refl)
  bind_end Q R f b k w (err d, w') h e = absurd (ground arith)

  pub Leads-bind :
      {P : Db → Type 0} {Q : A → Db → Type 0} {R : B → Db → Type 0} (m : Action A)
      (f : A → Action B)
      → Leads P m Q
      → ((a : A) → Leads (Q a) (f a) R)
      → Leads P (m >>= f) R
  Leads-bind {Q = Q} {R = R} m f l k = record {
    at = λ w b e h. bind_end Q R f b k w (m w) (λ a d. l.at w a d h) e;
  }

-- A check, a query or a draw, in front of the rest of a block.
module _ {B : Type 0} {P : Db → Type 0} {R : B → Db → Type 0} where
  checked :
      {A : Type 0} (r : Result A) (f : A → Action B)
      → ((a : A) → r ≡ ok a → Leads P (f a) R)
      → (w : World) (b : B) → ((lift r >>= f) w).0 ≡ ok b
      → P w.db
      → R b ((lift r >>= f) w).1.db
  checked (ok a) f k w b e h = (k a refl).at w b e h
  checked (err d) f k w b e h = absurd (ground arith)

  pub Leads-check :
      {A : Type 0} (r : Result A) (f : A → Action B)
      → ((a : A) → r ≡ ok a → Leads P (f a) R)
      → Leads P (lift r >>= f) R
  Leads-check r f k = record { at = checked r f k }

  pub Leads-read :
      {A : Type 0} (q : Db → Result A) (f : A → Action B)
      → ((a : A) → Leads P (f a) R)
      → Leads P (reads q >>= f) R
  Leads-read q f k = record { at = λ w. checked (q w.db) f (λ a e. k a) w }

  pub Leads-get :
      {A : Type 0} (q : Db → A) (f : A → Action B)
      → ((a : A) → Leads P (f a) R)
      → Leads P (gets q >>= f) R
  Leads-get q f k = record { at = λ w. (k (q w.db)).at w }

  pub Leads-drawn : (f : ℕ → Action B) → ((n : ℕ) → Leads P (f n) R) → Leads P (draw >>= f) R
  Leads-drawn f k = record { at = λ w. (k w.draws).at (record w { draws = w.draws + 1 }) }

  pub Leads-guard :
      {A : Type 0} (r : Result A) (f : A → Action B)
      → ((a : A) → Leads P (f a) R)
      → Leads P (lift r >>= f) R
  Leads-guard r f k = Leads-check r f (λ a e. k a)

module _ {A : Type 0} where
  pub Leads_of_Keeps : {P : Db → Type 0} (m : Action A) → Keeps P m → Leads P m (λ a. P)
  Leads_of_Keeps m k = record { at = λ w a e. k.at w }

  pub Returns-of_Leads :
      {Q : A → Db → Type 0} (m : Action A) → Leads (λ db. Unit {0}) m Q → Returns Q m
  Returns-of_Leads m l = record { at = λ w a e. l.at w a e tt }

module _ {A B : Type 0} where
  -- The value is passed on by a function of it.
  pub Returns-then :
      {Q : A → Db → Type 0} {R : B → Db → Type 0} (m : Action A) (f : A → B)
      → ((a : A) (db : Db) → Q a db → R (f a) db)
      → Returns Q m
      → Returns R (m >>= λ a. pure (f a))
  Returns-then {Q = Q} m f k r =
      Returns-of_Leads (m >>= λ a. pure (f a)) (
        Leads-bind {Q = Q} m _ (record { at = λ w a e h. r.at w a e })
          (λ a. Leads-pure (f a) (k a)))
