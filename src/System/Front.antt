-- ===== src/System/Front.antt =====
-- What stands in front of a handler's service, and what stands behind it.
use boutique_backend.Prelude.{String, Option}
use boutique_backend.Models.{Boutique, Membership, User, Db}
use boutique_backend.Api.{Action, pure, lift, reads, ◌>>=◌}
use boutique_backend.Api.Keeps.{Keeps, Keeps-pure, Keeps-reads, Keeps-bind, Keeps-check}
use boutique_backend.Tenancy.{Capability, find_store, require_membership, authenticate}

-- The part in front of a handler's service: the session, and the store or the seller's place in it.
module _ {B : Type 0} (P : Db → Type 0) (auth : Option User) (slug : String) where
  pub Keeps-at_store :
      (f : User → Boutique → Action B)
      → ((user : User) (store : Boutique) → Keeps P (f user store))
      → Keeps P (lift (authenticate auth) >>= λ user. reads (find_store slug) >>= f user)
  Keeps-at_store f k =
      Keeps-check P (authenticate auth) _ λ user.
        Keeps-bind (reads (find_store slug)) (f user) (Keeps-reads (find_store slug)) (k user)

  pub Keeps-as_member :
      (capability : Option Capability) (f : Membership × Boutique → Action B)
      → ((m : Membership × Boutique) → Keeps P (f m))
      → Keeps P (
          lift (authenticate auth) >>= λ user.
          reads (require_membership user slug capability) >>= f)
  Keeps-as_member capability f k = Keeps-check P (authenticate auth) _ λ user.
      Keeps-bind (reads (require_membership user slug capability)) f
        (Keeps-reads (require_membership user slug capability)) k

-- The answer to a request is not the database's affair.
pub Keeps-then :
    {A B : Type 0} {P : Db → Type 0} (m : Action A) (f : A → B)
    → Keeps P m
    → Keeps P (m >>= λ a. pure (f a))
Keeps-then m f k = Keeps-bind m (λ a. pure (f a)) k (λ a. Keeps-pure (f a))
