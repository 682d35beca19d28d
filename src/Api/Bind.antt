-- ===== src/Api/Bind.antt =====
-- How a block of an action runs, by how its first step ended.
use boutique_backend.Prelude.{◌≡◌, ap, arith}
use boutique_backend.Api.{Error, Result, ok, err, World, Action, ◌>>=◌, atomic}

module _ {A B : Type 0} (m : Action A) (f : A → Action B) (w : World) where
  pub bind_of_ok : (a : A) (w' : World) → m w ≡ (ok a, w') → (m >>= f) w ≡ f a w'
  bind_of_ok a w' h = ap (λ (p : Result A × World). ((λ (v : World). p) >>= f) w) h

  pub bind_of_err : (e : Error) → (m w).0 ≡ err e → ((m >>= f) w).0 ≡ err e
  bind_of_err e h = ground arith

module _ {A : Type 0} (m : Action A) (w : World) where
  pub atomic_of_ok : (a : A) (w' : World) → m w ≡ (ok a, w') → atomic m w ≡ (ok a, w')
  atomic_of_ok a w' h = ap (λ (p : Result A × World). atomic (λ (v : World). p) w) h

  pub atomic_of_err :
      (e : Error) → (m w).0 ≡ err e → ((atomic m w).0 ≡ err e) × ((atomic m w).1.db ≡ w.db)
  atomic_of_err e h = ground arith
