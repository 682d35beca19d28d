-- ===== src/Push/Registration.antt =====
-- A browser's registration at a store: one row for an endpoint, whoever signed in last.
use boutique_backend.Prelude.{
  ◌&&◌, List, [], ◌∷◌, ◌++◌, exists, reject, inl, inr, Bool-cases, ℕ, ◌≡◌, ◌∙◌, refl, ap, String,
  Option, none, some, modify, find?, ◌==◌, ℕ_eq, string_eq, arith, eq_iff,
}
use boutique_backend.Prelude.Constraints.{
  IsDistinct, append-IsDistinct, reject-IsDistinct, modify-IsDistinct,
}
use boutique_backend.Models.{Boutique, User, Db, PushSubscription}
use boutique_backend.Api.{ok, World, Runtime, varchar, lift, gets, draw, modify_db}
use boutique_backend.Api.Keeps.{
  Keeps, Keeps-pure, Keeps-lift, Keeps-gets, Keeps-check, Keeps-drawn, Keeps-draw, Keeps-modify_db,
  Keeps-bind,
}
use boutique_backend.Push.{
  clash_subscription, at_endpoint, insert_subscription, with_keys, create_subscription,
  refresh_subscription, upsert_subscription, subscribe, unsubscribe, delete_subscription,
}

-- One row for an endpoint at a store, and for an id.
abbrev pub EndpointsAreUnique : Db → Type 0
EndpointsAreUnique db = IsDistinct clash_subscription db.subscriptions

clash_subscription_comm : (a b : PushSubscription) → clash_subscription a b ≡ clash_subscription b a
clash_subscription_comm a b =
    ground (arith, eq_iff a.endpoint b.endpoint, eq_iff b.endpoint a.endpoint)

insert-EndpointsAreUnique :
    (s : PushSubscription) → Keeps EndpointsAreUnique (insert_subscription s)
unfolding insert_subscription
insert-EndpointsAreUnique s = record {
  at = λ w h.
      ground (
        arith,
        append-IsDistinct clash_subscription clash_subscription_comm s w.db.subscriptions h,
      );
}

create-EndpointsAreUnique :
    (rt : Runtime) (store : Boutique) (user : User) (endpoint p256dh auth : String)
    → Keeps EndpointsAreUnique (create_subscription rt store user endpoint p256dh auth)
unfolding create_subscription
create-EndpointsAreUnique rt store user endpoint p256dh auth =
    Keeps-bind {P = EndpointsAreUnique} draw _ Keeps-draw λ (n : ℕ).
      Keeps-bind (lift (varchar 500 endpoint)) _ (Keeps-lift (varchar 500 endpoint)) λ _.
        Keeps-bind (lift (varchar 255 p256dh)) _ (Keeps-lift (varchar 255 p256dh)) λ _.
          Keeps-bind (lift (varchar 255 auth)) _ (Keeps-lift (varchar 255 auth)) λ _.
            insert-EndpointsAreUnique (record {
              id = rt.uuid4 n;
              user = user.id;
              store = store.id;
              endpoint = endpoint;
              p256dh = p256dh;
              auth = auth;
              created_at = rt.now n;
            })

refresh-EndpointsAreUnique :
    (s : PushSubscription) (user : User) (p256dh auth : String)
    → Keeps EndpointsAreUnique (refresh_subscription s user p256dh auth)
unfolding refresh_subscription
refresh-EndpointsAreUnique s user p256dh auth =
    Keeps-bind {P = EndpointsAreUnique} (lift (varchar 255 p256dh)) _
      (Keeps-lift (varchar 255 p256dh))
      λ _. Keeps-bind (lift (varchar 255 auth)) _ (Keeps-lift (varchar 255 auth)) λ _.
        Keeps-bind (modify_db _) _
          (Keeps-modify_db
            (λ db. record db {
              subscriptions =
                  modify (λ r. r.id == s.id) (with_keys user p256dh auth) db.subscriptions;
            })
            (λ db h.
              modify-IsDistinct clash_subscription (λ r. r.id == s.id) (with_keys user p256dh auth)
                (λ x y. refl) (λ x y. refl) db.subscriptions h))
          λ _. Keeps-pure (with_keys user p256dh auth s)

pub upsert-EndpointsAreUnique :
    (rt : Runtime) (store : Boutique) (user : User) (endpoint p256dh auth : String)
    (found : Option PushSubscription)
    → Keeps EndpointsAreUnique (upsert_subscription rt store user endpoint p256dh auth found)
unfolding upsert_subscription
upsert-EndpointsAreUnique rt store user endpoint p256dh auth none =
    create-EndpointsAreUnique rt store user endpoint p256dh auth
upsert-EndpointsAreUnique rt store user endpoint p256dh auth (some s) =
    refresh-EndpointsAreUnique s user p256dh auth

pub unsubscribe-EndpointsAreUnique :
    (store : Boutique) (user : User) (endpoint : String)
    → Keeps EndpointsAreUnique (unsubscribe store user endpoint)
unfolding unsubscribe
unsubscribe-EndpointsAreUnique store user endpoint =
    let own = λ (s : PushSubscription).
      s.store == store.id && (s.user == user.id && s.endpoint == endpoint) in
    Keeps-modify_db (λ db. record db { subscriptions = reject own db.subscriptions })
      (λ db. reject-IsDistinct clash_subscription own db.subscriptions)

pub delete_subscription-EndpointsAreUnique :
    (s : PushSubscription) (db : Db)
    → EndpointsAreUnique db
    → EndpointsAreUnique (delete_subscription s db)
unfolding delete_subscription
delete_subscription-EndpointsAreUnique s db =
    reject-IsDistinct clash_subscription (λ r. r.id == s.id) db.subscriptions

-- What no write of registrations can break.
module _ {P : Db → Type 0}
    (free : (db : Db) (subscriptions : List PushSubscription)
      → P db
      → P (record db { subscriptions = subscriptions })) where
  insert_subscription-Keeps : (s : PushSubscription) → Keeps P (insert_subscription s)
  unfolding insert_subscription
  insert_subscription-Keeps s = record {
    at = λ w h. elim (Bool-cases (exists (clash_subscription s) w.db.subscriptions)) [
      | inl hit ↦ rw hit h
      | inr fresh ↦ rw fresh (free w.db (w.db.subscriptions ++ s ∷ []) h)
    ];
  }

  upsert_subscription-Keeps :
      (rt : Runtime) (store : Boutique) (user : User) (endpoint p256dh auth : String)
      (found : Option PushSubscription)
      → Keeps P (upsert_subscription rt store user endpoint p256dh auth found)
  unfolding upsert_subscription create_subscription refresh_subscription
  upsert_subscription-Keeps rt store user endpoint p256dh auth none = Keeps-drawn P _ λ n.
      Keeps-check P (varchar 500 endpoint) _ λ _. Keeps-check P (varchar 255 p256dh) _ λ _.
        Keeps-check P (varchar 255 auth) _ λ _. insert_subscription-Keeps (record {
          id = rt.uuid4 n;
          user = user.id;
          store = store.id;
          endpoint = endpoint;
          p256dh = p256dh;
          auth = auth;
          created_at = rt.now n;
        })
  upsert_subscription-Keeps rt store user endpoint p256dh auth (some s) =
      Keeps-check P (varchar 255 p256dh) _ λ _. Keeps-check P (varchar 255 auth) _ λ _.
        Keeps-bind (modify_db _) _
          (Keeps-modify_db
            (λ db. record db {
              subscriptions =
                  modify (λ r. r.id == s.id) (with_keys user p256dh auth) db.subscriptions;
            })
            (λ db. free db _))
          λ _. Keeps-pure (with_keys user p256dh auth s)

  pub subscribe-Keeps :
      (rt : Runtime) (store : Boutique) (user : User) (endpoint p256dh auth : String)
      → Keeps P (subscribe rt store user endpoint p256dh auth)
  unfolding subscribe
  subscribe-Keeps rt store user endpoint p256dh auth =
      Keeps-bind (gets (λ db. find? (at_endpoint store endpoint) db.subscriptions)) _
        (Keeps-gets (λ db. find? (at_endpoint store endpoint) db.subscriptions))
        (upsert_subscription-Keeps rt store user endpoint p256dh auth)

  pub unsubscribe-Keeps :
      (store : Boutique) (user : User) (endpoint : String)
      → Keeps P (unsubscribe store user endpoint)
  unfolding unsubscribe
  unsubscribe-Keeps store user endpoint =
      let own = λ (s : PushSubscription).
        s.store == store.id && (s.user == user.id && s.endpoint == endpoint) in
      Keeps-modify_db (λ db. record db { subscriptions = reject own db.subscriptions })
        (λ db. free db (reject own db.subscriptions))

  pub delete_subscription-Keeps :
      (s : PushSubscription) (db : Db) → P db → P (delete_subscription s db)
  unfolding delete_subscription
  delete_subscription-Keeps s db = free db (reject (λ r. r.id == s.id) db.subscriptions)

-- Registering a browser, the first time or again, never leaves two rows for one endpoint of a
-- store where there were none.
pub subscribe-EndpointsAreUnique :
    (rt : Runtime) (store : Boutique) (user : User) (endpoint p256dh auth : String) (w : World)
    → EndpointsAreUnique w.db
    → EndpointsAreUnique (subscribe rt store user endpoint p256dh auth w).1.db
unfolding subscribe
subscribe-EndpointsAreUnique rt store user endpoint p256dh auth w h =
    (upsert-EndpointsAreUnique rt store user endpoint p256dh auth
        (find? (at_endpoint store endpoint) w.db.subscriptions)).at
      w h

-- A user who signs in on a registered browser takes its registration over, if the keys fit their
-- columns: the row keeps its id and its place, and every row with another id stays as it is.
pub subscribe_again :
    (rt : Runtime) (store : Boutique) (user : User) (endpoint p256dh auth : String) (w : World)
    (s : PushSubscription)
    → find? (at_endpoint store endpoint) w.db.subscriptions ≡ some s
    → varchar 255 p256dh ≡ ok p256dh
    → varchar 255 auth ≡ ok auth
    → subscribe rt store user endpoint p256dh auth w ≡ (
      ok (with_keys user p256dh auth s),
      record w {
        db = record w.db {
          subscriptions =
              modify (λ r. r.id == s.id) (with_keys user p256dh auth) w.db.subscriptions;
        };
      },
    )
unfolding subscribe upsert_subscription refresh_subscription
subscribe_again rt store user endpoint p256dh auth w s found fits fits_too =
    ap (λ (o : Option PushSubscription). upsert_subscription rt store user endpoint p256dh auth o w)
      found
    ∙ rw (fits, fits_too) refl
