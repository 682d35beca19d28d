-- ===== src/System.antt =====
-- src/api/v1/api.py: the endpoints of the API, the handler that answers each, and every course that the
-- database can take through them. The endpoints for tokens are the JWT library's own.
pub mod Front
pub mod Reading
pub mod Lasting
pub mod Course
pub mod Soundness
pub mod Retries
pub mod Permanence
pub mod Receipts
mod Tests
use boutique_backend.Prelude.{ℕ, String, Option, true, false, ◌≡◌, ◌⊎◌, ◌==◌, ℕ_eq, arith}
use boutique_backend.Prelude.Int.{ℤ}
use boutique_backend.Models.{User, Db, Status}
use boutique_backend.Api.{World, Runtime, Action, pure, ◌>>=◌, ◌>>◌}
use boutique_backend.Orders.Schemas.{RawOrder}
use boutique_backend.Orders.Requests.{
  place, admin_set_status, my_orders, my_order, admin_inbox, admin_order,
}
use boutique_backend.Push.{Gateway}
use boutique_backend.Push.Requests.{
  SubscribePayload, subscribe_browser, unsubscribe_browser, announce, key,
}
use boutique_backend.Favorites.{add, remove, my_favorites}
use Prim.Native.Char.{Char}
use boutique_backend.Prelude.{Bool}
use boutique_backend.Tenancy.Roster.{me, members, customers}
use boutique_backend.Catalog.Criteria.{Query, Collation}
use boutique_backend.Catalog.{products, product}
use boutique_backend.Catalog.Facets.{facets}
use boutique_backend.Catalog.Index.{categories}
use boutique_backend.Catalog.Upload.{upload_image}
use boutique_backend.Catalog.Upload
use boutique_backend.Catalog.Creation.{ProductCreate, admin_create_category, admin_create_product}
use boutique_backend.Catalog.Writes.{ProductUpdate, admin_update_product, admin_delete_product}
use boutique_backend.Accounts.{Auth, AddressFields}
use boutique_backend.Accounts.Phone
use boutique_backend.Accounts.Phone.{Classes}
use boutique_backend.Accounts.Requests.{
  save_address, remove_address, sign_up, reset_request, reset_confirm, user_me, admin_me,
  my_addresses,
}

-- What the handlers use of libraries.
pub record Outside : Type 0 where
  pub runtime : Runtime
  pub gateway : Gateway
  pub auth : Auth
  pub slugify : String → String
  pub read_email : String → Option String
  pub classes : Classes
  pub collation : Collation
  pub collates_before : String → String → Bool
  pub is_space : Char → Bool
  pub storage : Upload.Storage

-- A request: the session's user, if it has one, and what the request carries.
pub data Request : Type 0 where
  placing : Option User → String → RawOrder → Request
  moving : Option User → String → ℕ → Status → Request
  subscribing : Option User → String → SubscribePayload → Request
  unsubscribing : Option User → String → String → Request
  announcing : Option User → String → ℕ → Request
  favoring : Option User → String → ℕ → Request
  unfavoring : Option User → String → ℕ → Request
  creating_category : Option User → String → String → ℤ → Request
  creating_product : Option User → String → ProductCreate → Request
  updating_product : Option User → String → ℕ → ProductUpdate → Request
  deleting_product : Option User → String → ℕ → Request
  registering : Phone.Registration → Request
  asking_reset : String → Request
  confirming_reset : String → String → String → Request
  saving_address : Option User → AddressFields → Request
  removing_address : Option User → ℕ → Request
  listing_products : String → String → Query → ℤ → ℤ → Request
  showing_product : String → String → Request
  listing_facets : String → Query → Request
  listing_categories : String → Request
  listing_orders : Option User → String → Request
  showing_order : Option User → String → ℕ → Request
  polling_inbox : Option User → String → Option ℕ → Option ℕ → Option Status → Request
  showing_store_order : Option User → String → ℕ → Request
  asking_key : String → Request
  listing_favorites : Option User → String → Request
  showing_standing : Option User → String → Request
  listing_members : Option User → String → Request
  listing_customers : Option User → String → Request
  showing_user : Option User → Request
  showing_seller : Option User → Option User → Request
  listing_addresses : Option User → Request
  uploading_image : Option User → String → String → Request

-- The handler of a request. `others` is what other requests commit in its gaps: a handler has one gap, but
-- for the five rounds of a product's creation.
unfoldable pub serve : Outside → (ℕ → Db → Db) → Request → Action (Unit {0})
serve o others (placing auth slug body) = place o.runtime (others 0) auth slug body >> pure tt
serve o others (moving auth slug order_id status) =
    admin_set_status o.runtime o.gateway auth slug order_id status >> pure tt
serve o others (subscribing auth slug payload) =
    subscribe_browser o.runtime auth slug payload >> pure tt
serve o others (unsubscribing auth slug endpoint) =
    unsubscribe_browser auth slug endpoint >> pure tt
serve o others (announcing auth slug product_id) =
    announce o.gateway auth slug product_id >> pure tt
serve o others (favoring auth slug product_id) =
    add o.runtime (others 0) auth slug product_id >> pure tt
serve o others (unfavoring auth slug product_id) = remove auth slug product_id >> pure tt
serve o others (creating_category auth slug name position) =
    admin_create_category o.runtime o.slugify (others 0) auth slug name position >> pure tt
serve o others (creating_product auth slug payload) =
    admin_create_product o.runtime o.slugify others auth slug payload >> pure tt
serve o others (updating_product auth slug product_id payload) =
    admin_update_product o.runtime auth slug product_id payload >> pure tt
serve o others (deleting_product auth slug product_id) =
    admin_delete_product auth slug product_id >> pure tt
serve o others (registering body) =
    sign_up o.read_email o.classes o.auth o.runtime (others 0) body >> pure tt
serve o others (asking_reset email) = reset_request o.auth email >> pure tt
serve o others (confirming_reset uid token password) =
    reset_confirm o.auth uid token password >> pure tt
serve o others (saving_address auth body) = save_address o.runtime auth body >> pure tt
serve o others (removing_address auth address_id) = remove_address auth address_id >> pure tt
serve o others (listing_products slug sort query limit offset) =
    products o.is_space o.collation slug sort query limit offset >> pure tt
serve o others (showing_product slug product_slug) = product slug product_slug >> pure tt
serve o others (listing_facets slug query) =
    facets o.is_space o.collation o.collates_before slug query >> pure tt
serve o others (listing_categories slug) = categories o.collates_before slug >> pure tt
serve o others (listing_orders auth slug) = my_orders auth slug >> pure tt
serve o others (showing_order auth slug order_id) = my_order auth slug order_id >> pure tt
serve o others (polling_inbox auth slug since since_id status) =
    admin_inbox auth slug since since_id status >> pure tt
serve o others (showing_store_order auth slug order_id) = admin_order auth slug order_id >> pure tt
serve o others (asking_key slug) = key o.gateway slug >> pure tt
serve o others (listing_favorites auth slug) = my_favorites auth slug >> pure tt
serve o others (showing_standing auth slug) = me auth slug >> pure tt
serve o others (listing_members auth slug) = members auth slug >> pure tt
serve o others (listing_customers auth slug) = customers o.collates_before auth slug >> pure tt
serve o others (showing_user auth) = user_me auth >> pure tt
serve o others (showing_seller auth session) = admin_me auth session >> pure tt
serve o others (listing_addresses auth) = my_addresses auth >> pure tt
serve o others (uploading_image auth slug file_name) =
    upload_image o.storage o.runtime auth slug file_name >> pure tt

-- The courses of the database: a request is served, and what other requests commit in its gaps is such a
-- course itself.
pub data Run (o : Outside) : Db → Db → Type 0 where
  idle : {db : Db} → Run o db db
  served :
      (others : ℕ → Db → Db)
      → ((k : ℕ) (db : Db) → Run o db (others k db))
      → (r : Request) (w : World) → Run o w.db (serve o others r w).1.db
  later : {a b c : Db} → Run o a b → Run o b c → Run o a c

-- A request that asks for the deletion of the product.
abbrev pub asks_deletion : ℕ → Request → Bool
asks_deletion id (deleting_product auth slug product_id) = product_id == id
asks_deletion id _ = false

-- A request of the course, or of a gap in it, asks for the deletion of the product.
abbrev pub Deletes : {o : Outside} {a b : Db} → Run o a b → ℕ → Type 0
Deletes idle id = ⊥
Deletes (served others between r w) id =
    (asks_deletion id r ≡ true) ⊎ ((k : ℕ) × ((db : Db) × Deletes (between k db) id))
Deletes (later first second) id = Deletes first id ⊎ Deletes second id
