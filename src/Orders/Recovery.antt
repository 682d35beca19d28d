-- ===== src/Orders/Recovery.antt =====
-- What an `except IntegrityError` clause keeps, what the two ways through it return, and how it
-- fails.
use boutique_backend.Prelude.{◌≡◌, ◌≢◌, arith}
use boutique_backend.Models.{Db}
use boutique_backend.Api.{Error, integrity_error, Result, ok, err, World, Action}
use boutique_backend.Api.Avoids.{Avoids}
use boutique_backend.Api.Keeps.{Keeps}
use boutique_backend.Api.Returns.{Returns}
use boutique_backend.Orders.{on_integrity_error}

module _ {A : Type 0} where
  clash_end :
      (Q : A → Db → Type 0) (handler : Action A) (a : A) (p : Result A × World)
      → ((b : A) → p.0 ≡ ok b → Q b p.1.db)
      → Returns Q handler
      → (w : World) → (on_integrity_error (λ (v : World). p) handler w).0 ≡ ok a
      → Q a (on_integrity_error (λ (v : World). p) handler w).1.db
  clash_end Q handler a (ok b, w') k r w h = k a h
  clash_end Q handler a (err integrity_error, w') k r w h = r.at w' a h
  clash_end Q handler a (err e, w') k r w h = absurd (ground arith)

  pub Returns-on_integrity_error :
      {Q : A → Db → Type 0} (m handler : Action A)
      → Returns Q m
      → Returns Q handler
      → Returns Q (on_integrity_error m handler)
  Returns-on_integrity_error {Q = Q} m handler k r = record {
    at = λ w a h. clash_end Q handler a (m w) (k.at w) r w h;
  }

  pub Keeps-on_integrity_error :
      {P : Db → Type 0} (m handler : Action A)
      → Keeps P m
      → Keeps P handler
      → Keeps P (on_integrity_error m handler)
  Keeps-on_integrity_error {P = P} m handler k r = record {
    at = λ w h. clash_keeps P handler r (m w) (k.at w h) w;
  }
    where
      clash_keeps :
          (P : Db → Type 0) (handler : Action A)
          → Keeps P handler
          → (p : Result A × World) → P p.1.db
          → (w : World) → P (on_integrity_error (λ (v : World). p) handler w).1.db
      clash_keeps P handler r (ok b, w') k w = k
      clash_keeps P handler r (err integrity_error, w') k w = r.at w' k
      clash_keeps P handler r (err e, w') k w = k

module _ {A : Type 0} (e : Error) where
  clash_fails :
      (handler : Action A)
      → Avoids e handler
      → (p : Result A × World) → p.0 ≢ err e
      → (w : World) → (on_integrity_error (λ (v : World). p) handler w).0 ≢ err e
  clash_fails handler r (ok b, w') k w h = ground arith
  clash_fails handler r (err integrity_error, w') k w h = r.at w' h
  clash_fails handler r (err d, w') k w h = k h

  pub Avoids-on_integrity_error :
      (m handler : Action A)
      → Avoids e m
      → Avoids e handler
      → Avoids e (on_integrity_error m handler)
  Avoids-on_integrity_error m handler k r = record {
    at = λ w. clash_fails handler r (m w) (k.at w) w;
  }
