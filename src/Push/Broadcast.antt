-- ===== src/Push/Broadcast.antt =====
-- Whom a broadcast reaches, and which registrations it prunes.
use boutique_backend.Prelude.{
  ℕ, ◌+◌, ◌≡◌, refl, Bool, false, ◌&&◌, ◌||◌, List, [], ◌∷◌, reject, ◌==◌, ℕ_eq, arith,
}
use boutique_backend.Models.{PushSubscription}
use boutique_backend.Api.{PushPayload}
use boutique_backend.Push.{
  Gateway, Delivery, delivered, web_push_exception, other_exception, is_gone, push_call,
}

-- The push service answered that the registration no longer exists.
abbrev pub says_gone : Delivery → Bool
says_gone (web_push_exception status) = is_gone status
says_gone delivered = false
says_gone other_exception = false

-- Whether one of the calls for these registrations, the n-th and those after it, had that answer for
-- the registration with the id.
abbrev pub reported_gone : Gateway → PushPayload → ℕ → List PushSubscription → ℕ → Bool
reported_gone gw payload n [] id = false
reported_gone gw payload n (s ∷ ss) id =
    (says_gone (gw.webpush n (push_call gw payload s)) && id == s.id)
    || reported_gone gw payload (n + 1) ss id

reject_pointwise :
    (p q : PushSubscription → Bool) (xs : List PushSubscription)
    → ((x : PushSubscription) → p x ≡ q x)
    → reject p xs ≡ reject q xs
reject_pointwise p q [] h = refl
reject_pointwise p q (x ∷ xs) h = ground (arith, h x, reject_pointwise p q xs h)
