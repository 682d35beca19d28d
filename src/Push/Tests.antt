-- ===== src/Push/Tests.antt =====
-- Runs of the push services, and the theorems at concrete inputs.
use boutique_backend.Prelude.{◌≡◌, refl, [], ◌∷◌, ℕ_eq, string_eq}
use boutique_backend.Models.{PushSubscription, confirmed}
use boutique_backend.Api.{ok, World, order_status, varchar}
use boutique_backend.Samples.{runtime, gateway, zita, customer, opening}
use boutique_backend.Push.{
  settle, send, send_all, subscribe, insert_subscription, create_subscription, refresh_subscription,
  upsert_subscription, delete_subscription,
}
use boutique_backend.Push.Registration.{EndpointsAreUnique}

program : Unit {0}
unfolding settle send send_all subscribe insert_subscription create_subscription
    refresh_subscription upsert_subscription delete_subscription varchar
program = tt

abbrev phone : PushSubscription
phone = record {
  id = 1000;
  user = 10;
  store = 1;
  endpoint = "https://push.example/a";
  p256dh = "key";
  auth = "auth";
  created_at = 50;
}

abbrev laptop : PushSubscription
laptop = record phone { id = 1001; endpoint = "https://push.example/b" }

abbrev registered : World
registered = record opening {
  db = record opening.db { subscriptions = phone ∷ laptop ∷ [] };
  draws = 2;
}

run-subscribe :
    (subscribe runtime zita customer "https://push.example/a" "key" "auth" opening).0 ≡ ok phone
unfolding program
run-subscribe = refl

-- test_a_dead_subscription_is_pruned
run-send_all :
    (send_all gateway
      (order_status "zita" 7 confirmed)
      (phone ∷ laptop ∷ [])
      registered).1.db.subscriptions
    ≡ laptop ∷ []
unfolding program
run-send_all = refl

registered-EndpointsAreUnique : EndpointsAreUnique registered.db
registered-EndpointsAreUnique = (refl, (refl, tt))

short_key : varchar 255 "k" ≡ ok "k"
unfolding varchar
short_key = refl
