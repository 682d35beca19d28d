-- ===== src/System/Course.antt =====
-- Every endpoint keeps what its transactions keep, and so does every course of requests.
use boutique_backend.Prelude.{inl, inr, true, ◌≡◌, beq_refl, ℕ, String, Option, some, ◌==◌, ℕ_eq}
use boutique_backend.Models.{User, Db, Product, Favorite}
use boutique_backend.Api.{reads, gets, get_object}
use boutique_backend.Api.Keeps.{Keeps, Keeps-pure, Keeps-reads, Keeps-gets, Keeps-bind, Keeps-check}
use boutique_backend.Orders.{visible_product, cover_url, place_order}
use boutique_backend.Orders.Schemas.{RawOrder, read_order}
use boutique_backend.Orders.Frame.{place_order-Keeps}
use boutique_backend.Orders.Requests.{place, admin_set_status, created_status, validated}
use boutique_backend.Push.{subscribe, unsubscribe, broadcast_new_arrival}
use boutique_backend.Push.Frame.{broadcast_new_arrival-Keeps}
use boutique_backend.Push.Requests.{subscribe_browser, unsubscribe_browser, announce}
use boutique_backend.Favorites.{remove_favorite, add_favorite, add, remove}
use boutique_backend.Favorites.Constraint.{add_favorite-Keeps}
use boutique_backend.Catalog.Creation.{
  create_category, create_product, admin_create_category, admin_create_product,
}
use boutique_backend.Catalog.Creation.Frame.{create_category-Keeps, create_product-Keeps}
use boutique_backend.Catalog.Writes.{delete_product, admin_update_product, admin_delete_product}
use boutique_backend.Catalog.Frame.{delete_product-Keeps}
use boutique_backend.Accounts.Phone
use boutique_backend.Accounts.Phone.{read_registration}
use boutique_backend.Accounts.{create_user, confirm_password_reset, add_address, delete_address}
use boutique_backend.Accounts.Frame.{create_user-Keeps, confirm_password_reset-Keeps}
use boutique_backend.Accounts.Registration.{reset_request_lem}
use boutique_backend.Accounts.Requests.{
  save_address, remove_address, current_user, read_address, register, sign_up, reset_request,
  reset_confirm,
}
use boutique_backend.Tenancy.{Capability, find_store, authenticate}
use boutique_backend.Orders.Requests.{my_orders, my_order, admin_inbox, admin_order}
use boutique_backend.Push.Requests.{key}
use boutique_backend.Favorites.{my_favorites}
use boutique_backend.Tenancy.Roster.{me, members, customers}
use boutique_backend.Catalog.{products, product}
use boutique_backend.Catalog.Facets.{facets}
use boutique_backend.Catalog.Index.{categories}
use boutique_backend.Catalog.Upload.{upload_image}
use boutique_backend.Accounts.Requests.{user_me, admin_me, my_addresses}
use boutique_backend.System.Front.{Keeps-at_store, Keeps-as_member, Keeps-then}
use boutique_backend.System.Reading.{
  products-Keeps, product-Keeps, facets-Keeps, categories-Keeps, my_orders-Keeps, my_order-Keeps,
  admin_inbox-Keeps, admin_order-Keeps, key-Keeps, my_favorites-Keeps, me-Keeps, members-Keeps,
  customers-Keeps, user_me-Keeps, admin_me-Keeps, my_addresses-Keeps, upload_image-Keeps,
}
use boutique_backend.System.{
  listing_products, showing_product, listing_facets, listing_categories, listing_orders,
  showing_order, polling_inbox, showing_store_order, asking_key, listing_favorites,
  showing_standing, listing_members, listing_customers, showing_user, showing_seller,
  listing_addresses, uploading_image, Outside, Request, placing, moving, subscribing, unsubscribing,
  announcing, favoring, unfavoring, creating_category, creating_product, updating_product,
  deleting_product, registering, asking_reset, confirming_reset, saving_address, removing_address,
  serve, asks_deletion, Deletes, Run, idle, served, later,
}
use boutique_backend.System.Lasting.{IsLasting}

module _ (o : Outside) {D : ℕ → Type 0} {P : Db → Type 0} (l : IsLasting o D P)
    (others : ℕ → Db → Db) (keep : (k : ℕ) (db : Db) → P db → P (others k db)) where
  served_order :
      (auth : Option User) (slug : String) (body : RawOrder)
      → Keeps P (place o.runtime (others 0) auth slug body)
  unfolding place
  served_order auth slug body = Keeps-check P (authenticate auth) _ λ customer.
      Keeps-check P (validated (read_order body)) _ λ payload.
        Keeps-bind (reads (find_store slug)) _ (Keeps-reads (find_store slug)) λ store.
          Keeps-then (place_order o.runtime (others 0) store customer payload)
            (λ placed. (created_status placed.1, placed.0))
            (place_order-Keeps o.runtime store customer payload (l.order store customer payload)
              (others 0) (keep 0))

  served_announcement :
      (auth : Option User) (slug : String) (product_id : ℕ)
      → Keeps P (announce o.gateway auth slug product_id)
  unfolding announce
  served_announcement auth slug product_id =
      Keeps-as_member P auth slug (some Capability.manage_catalog) _ λ member.
        Keeps-bind (reads (λ db. visible_product db.catalog member.1 product_id)) _
          (Keeps-reads (λ db. visible_product db.catalog member.1 product_id))
          λ (product : Product).
            Keeps-bind (gets (λ db. cover_url db.catalog product)) _
              (Keeps-gets (λ db. cover_url db.catalog product))
              λ url.
                Keeps-then (broadcast_new_arrival o.gateway member.1 product.id product.name url)
                  (λ _. 202)
                  (broadcast_new_arrival-Keeps o.gateway l.prune member.1 product.id product.name
                    url)

  served_favorite :
      (auth : Option User) (slug : String) (product_id : ℕ)
      → Keeps P (add o.runtime (others 0) auth slug product_id)
  unfolding add
  served_favorite auth slug product_id = Keeps-at_store P auth slug _ λ customer store.
      Keeps-bind (add_favorite o.runtime (others 0) store customer product_id) _
        (add_favorite-Keeps o.runtime (others 0) store customer product_id
          (l.favorite store customer) (keep 0))
        λ (favorite : Favorite).
          Keeps-bind (reads (λ db. get_object (λ p. p.id == favorite.product) db.products)) _
            (Keeps-reads (λ db. get_object (λ p. p.id == favorite.product) db.products))
            λ product. Keeps-pure (201, product)

  served_registration :
      (body : Phone.Registration)
      → Keeps P (sign_up o.read_email o.classes o.auth o.runtime (others 0) body)
  unfolding sign_up register
  served_registration body =
      Keeps-check P (validated (read_registration o.read_email o.classes body)) _
        λ (payload : Phone.Registration).
          Keeps-bind
            (create_user o.auth o.runtime (others 0) payload.name payload.email payload.phone_number
              payload.password)
            _
            (create_user-Keeps o.auth o.runtime (others 0) payload.name payload.email
              payload.phone_number payload.password (l.user payload.password) (keep 0))
            λ user. Keeps-gets (current_user user)

  served_reset : (email : String) → Keeps P (reset_request o.auth email)
  served_reset email = record { at = λ w h. rw ((reset_request_lem o.auth email email w).1) h }

  -- A request is served without breaking the property.
  pub serve-Keeps :
      (r : Request) → ((id : ℕ) → asks_deletion id r ≡ true → D id) → Keeps P (serve o others r)
  unfolding serve admin_set_status subscribe_browser unsubscribe_browser remove
      admin_create_category admin_create_product admin_update_product admin_delete_product
      reset_confirm save_address remove_address
  serve-Keeps (placing auth slug body) may =
      Keeps-then (place o.runtime (others 0) auth slug body) (λ _. tt) (served_order auth slug body)
  serve-Keeps (moving auth slug order_id status) may =
      Keeps-then (admin_set_status o.runtime o.gateway auth slug order_id status) (λ _. tt)
        (Keeps-as_member P auth slug (some Capability.work_orders) _
          λ member. l.status member.1 order_id status)
  serve-Keeps (subscribing auth slug payload) may =
      Keeps-then (subscribe_browser o.runtime auth slug payload) (λ _. tt)
        (Keeps-at_store P auth slug _ λ user store.
          Keeps-then
            (subscribe o.runtime store user payload.endpoint payload.keys.p256dh payload.keys.auth)
            (λ _. 201)
            (l.subscription store user payload.endpoint payload.keys.p256dh payload.keys.auth))
  serve-Keeps (unsubscribing auth slug endpoint) may =
      Keeps-then (unsubscribe_browser auth slug endpoint) (λ _. tt)
        (Keeps-at_store P auth slug _ λ user store.
          Keeps-then (unsubscribe store user endpoint) (λ _. 204)
            (l.unsubscription store user endpoint))
  serve-Keeps (announcing auth slug product_id) may =
      Keeps-then (announce o.gateway auth slug product_id) (λ _. tt)
        (served_announcement auth slug product_id)
  serve-Keeps (favoring auth slug product_id) may =
      Keeps-then (add o.runtime (others 0) auth slug product_id) (λ _. tt)
        (served_favorite auth slug product_id)
  serve-Keeps (unfavoring auth slug product_id) may =
      Keeps-then (remove auth slug product_id) (λ _. tt)
        (Keeps-at_store P auth slug _ λ user store.
          Keeps-then (remove_favorite store user product_id) (λ _. 204)
            (l.removal store user product_id))
  serve-Keeps (creating_category auth slug name position) may =
      Keeps-then (admin_create_category o.runtime o.slugify (others 0) auth slug name position)
        (λ _. tt)
        (Keeps-as_member P auth slug (some Capability.manage_catalog) _ λ member.
          Keeps-then (create_category o.runtime o.slugify (others 0) member.1 name position)
            (λ category. (201, category))
            (create_category-Keeps o.runtime o.slugify (others 0) member.1 name position
              (l.category member.1 name position) (keep 0)))
  serve-Keeps (creating_product auth slug payload) may =
      Keeps-then (admin_create_product o.runtime o.slugify others auth slug payload) (λ _. tt)
        (Keeps-as_member P auth slug (some Capability.manage_catalog) _ λ member.
          Keeps-then (create_product o.runtime o.slugify others member.1 payload)
            (λ product. (201, product))
            (create_product-Keeps o.runtime o.slugify others member.1 payload
              (λ c s. l.product member.1 c s payload) keep))
  serve-Keeps (updating_product auth slug product_id payload) may =
      Keeps-then (admin_update_product o.runtime auth slug product_id payload) (λ _. tt)
        (Keeps-as_member P auth slug (some Capability.manage_catalog) _
          λ member. l.update member.1 product_id payload)
  serve-Keeps (deleting_product auth slug product_id) may =
      Keeps-then (admin_delete_product auth slug product_id) (λ _. tt)
        (Keeps-as_member P auth slug (some Capability.manage_catalog) _ λ member.
          Keeps-then (delete_product member.1 product_id) (λ _. 204)
            (delete_product-Keeps member.1 product_id
              (l.deletion product_id (may product_id (beq_refl product_id)))))
  serve-Keeps (registering body) may =
      Keeps-then (sign_up o.read_email o.classes o.auth o.runtime (others 0) body) (λ _. tt)
        (served_registration body)
  serve-Keeps (asking_reset email) may =
      Keeps-then (reset_request o.auth email) (λ _. tt) (served_reset email)
  serve-Keeps (confirming_reset uid token password) may =
      Keeps-then (reset_confirm o.auth uid token password) (λ _. tt)
        (Keeps-then (confirm_password_reset o.auth uid token password)
          (λ _. "Password updated. You can now sign in.")
          (confirm_password_reset-Keeps o.auth uid token password l.password))
  serve-Keeps (saving_address auth body) may =
      Keeps-then (save_address o.runtime auth body) (λ _. tt)
        (Keeps-check P (authenticate auth) _ λ user.
          Keeps-check P (validated (read_address body)) _ λ fields.
            Keeps-then (add_address o.runtime user fields) (λ address. (201, address))
              (l.address user fields))
  serve-Keeps (removing_address auth address_id) may =
      Keeps-then (remove_address auth address_id) (λ _. tt)
        (Keeps-check P (authenticate auth) _ λ user.
          Keeps-then (delete_address user address_id) (λ _. 204)
            (l.address_removal user address_id))
  serve-Keeps (listing_products slug sort query limit offset) may =
      Keeps-then (products o.is_space o.collation slug sort query limit offset) (λ _. tt)
        (products-Keeps o.is_space o.collation slug sort query limit offset)
  serve-Keeps (showing_product slug product_slug) may =
      Keeps-then (product slug product_slug) (λ _. tt) (product-Keeps slug product_slug)
  serve-Keeps (listing_facets slug query) may =
      Keeps-then (facets o.is_space o.collation o.collates_before slug query) (λ _. tt)
        (facets-Keeps o.is_space o.collation o.collates_before slug query)
  serve-Keeps (listing_categories slug) may =
      Keeps-then (categories o.collates_before slug) (λ _. tt)
        (categories-Keeps o.collates_before slug)
  serve-Keeps (listing_orders auth slug) may =
      Keeps-then (my_orders auth slug) (λ _. tt) (my_orders-Keeps auth slug)
  serve-Keeps (showing_order auth slug order_id) may =
      Keeps-then (my_order auth slug order_id) (λ _. tt) (my_order-Keeps auth slug order_id)
  serve-Keeps (polling_inbox auth slug since since_id status) may =
      Keeps-then (admin_inbox auth slug since since_id status) (λ _. tt)
        (admin_inbox-Keeps auth slug since since_id status)
  serve-Keeps (showing_store_order auth slug order_id) may =
      Keeps-then (admin_order auth slug order_id) (λ _. tt) (admin_order-Keeps auth slug order_id)
  serve-Keeps (asking_key slug) may =
      Keeps-then (key o.gateway slug) (λ _. tt) (key-Keeps o.gateway slug)
  serve-Keeps (listing_favorites auth slug) may =
      Keeps-then (my_favorites auth slug) (λ _. tt) (my_favorites-Keeps auth slug)
  serve-Keeps (showing_standing auth slug) may =
      Keeps-then (me auth slug) (λ _. tt) (me-Keeps auth slug)
  serve-Keeps (listing_members auth slug) may =
      Keeps-then (members auth slug) (λ _. tt) (members-Keeps auth slug)
  serve-Keeps (listing_customers auth slug) may =
      Keeps-then (customers o.collates_before auth slug) (λ _. tt)
        (customers-Keeps o.collates_before auth slug)
  serve-Keeps (showing_user auth) may = Keeps-then (user_me auth) (λ _. tt) (user_me-Keeps auth)
  serve-Keeps (showing_seller auth session) may =
      Keeps-then (admin_me auth session) (λ _. tt) (admin_me-Keeps auth session)
  serve-Keeps (listing_addresses auth) may =
      Keeps-then (my_addresses auth) (λ _. tt) (my_addresses-Keeps auth)
  serve-Keeps (uploading_image auth slug file_name) may =
      Keeps-then (upload_image o.storage o.runtime auth slug file_name) (λ _. tt)
        (upload_image-Keeps o.storage o.runtime auth slug file_name)

-- By induction on the course, the requests in the gaps of a request first.
pub Run-Lasting :
    {o : Outside} {D : ℕ → Type 0} {P : Db → Type 0}
    → IsLasting o D P
    → {a b : Db} (run : Run o a b) → ((id : ℕ) → Deletes run id → D id)
    → P a
    → P b
Run-Lasting l idle may h = h
Run-Lasting {o} l (served others between r w) may h =
    (serve-Keeps o l others
        (λ k db. Run-Lasting l (between k db) (λ id d. may id (inr (k, (db, d))))) r
        (λ id d. may id (inl d))).at
      w h
Run-Lasting l (later first second) may h =
    Run-Lasting l second (λ id d. may id (inr d)) (Run-Lasting l first (λ id d. may id (inl d)) h)
