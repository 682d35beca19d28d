-- ===== src/System/Lasting.antt =====
-- What the transactions and the single writes of the services have to keep, for a property of the
-- database to outlast every course.
use boutique_backend.Prelude.{List, ℕ, String, ℕ_eq}
use boutique_backend.Prelude.Int.{ℤ}
use boutique_backend.Models.{
  Catalog, Address, Boutique, User, Db, Status, Category, Favorite, PushSubscription,
}
use boutique_backend.Api.{atomic}
use boutique_backend.Api.Keeps.{Keeps}
use boutique_backend.Orders.{build_order, set_status}
use boutique_backend.Orders.Schemas.{OrderCreate}
use boutique_backend.Push.{subscribe, unsubscribe, delete_subscription}
use boutique_backend.Push.Registration.{
  subscribe-Keeps, unsubscribe-Keeps, delete_subscription-Keeps,
}
use boutique_backend.Favorites.{create_favorite, remove_favorite}
use boutique_backend.Favorites.Constraint.{create_favorite-Keeps, remove_favorite-Keeps}
use boutique_backend.Catalog.Creation.{ProductCreate, add_category, build_product}
use boutique_backend.Catalog.Creation.Frame.{Inserts-free, add_category-Keeps, build_product-Keeps}
use boutique_backend.Catalog.Writes.{ProductUpdate, update_product, without_product}
use boutique_backend.Catalog.Frame.{update_product-Keeps}
use boutique_backend.Accounts.{
  AddressFields, manager_create_user, save_password, add_address, delete_address,
}
use boutique_backend.Accounts.Frame.{
  manager_create_user-Keeps, save_password-Keeps, insert_address-Keeps, add_address-Keeps,
  delete_address-Keeps,
}
use boutique_backend.System.{Outside}

-- The transactions and the single writes of the services keep the property, where only products of D are
-- deleted.
pub record IsLasting (o : Outside) (D : ℕ → Type 0) (P : Db → Type 0) : Type 0 where
  pub order :
      (store : Boutique) (customer : User) (payload : OrderCreate)
      → Keeps P (atomic (build_order o.runtime store customer payload))
  pub status :
      (store : Boutique) (order_id : ℕ) (status : Status)
      → Keeps P (set_status o.runtime o.gateway store order_id status)
  pub subscription :
      (store : Boutique) (user : User) (endpoint p256dh auth : String)
      → Keeps P (subscribe o.runtime store user endpoint p256dh auth)
  pub unsubscription :
      (store : Boutique) (user : User) (endpoint : String)
      → Keeps P (unsubscribe store user endpoint)
  pub prune : (s : PushSubscription) (db : Db) → P db → P (delete_subscription s db)
  pub favorite :
      (store : Boutique) (customer : User) (product_id : ℕ)
      → Keeps P (create_favorite o.runtime store customer product_id)
  pub removal :
      (store : Boutique) (customer : User) (product_id : ℕ)
      → Keeps P (remove_favorite store customer product_id)
  pub category :
      (store : Boutique) (name : String) (position : ℤ) (slug : String)
      → Keeps P (add_category o.runtime store name position slug)
  pub product :
      (store : Boutique) (category : Category) (slug : String) (payload : ProductCreate)
      → Keeps P (build_product o.runtime store category slug payload)
  pub update :
      (store : Boutique) (product_id : ℕ) (payload : ProductUpdate)
      → Keeps P (update_product o.runtime store product_id payload)
  pub deletion :
      (product_id : ℕ) → D product_id → (db : Db) → P db → P (without_product product_id db)
  pub user :
      (password : String) (draft : User)
      → Keeps P (manager_create_user o.auth o.runtime password draft)
  pub password : (u : User) → Keeps P (save_password u)
  pub address : (user : User) (f : AddressFields) → Keeps P (add_address o.runtime user f)
  pub address_removal : (user : User) (address_id : ℕ) → Keeps P (delete_address user address_id)

-- Whatever product is deleted.
abbrev pub Anything : ℕ → Type 0
Anything id = Unit

-- What depends on the orders and their lines alone.
module _ (o : Outside) {D : ℕ → Type 0} {P : Db → Type 0}
    (catalog_free : (db : Db) (c : Catalog) → P db → P (record db { catalog = c }))
    (favorites_free : (db : Db) (favorites : List Favorite)
      → P db
      → P (record db { favorites = favorites }))
    (subscriptions_free : (db : Db) (subscriptions : List PushSubscription)
      → P db
      → P (record db { subscriptions = subscriptions }))
    (users_free : (db : Db) (users : List User) → P db → P (record db { users = users }))
    (addresses_free : (db : Db) (addresses : List Address)
      → P db
      → P (record db { addresses = addresses })) where
  pub IsLasting_of_orders :
      ((store : Boutique) (customer : User) (payload : OrderCreate)
        → Keeps P (atomic (build_order o.runtime store customer payload)))
      → ((store : Boutique) (order_id : ℕ) (status : Status)
          → Keeps P (set_status o.runtime o.gateway store order_id status))
      → ((product_id : ℕ) → D product_id → (db : Db) → P db → P (without_product product_id db))
      → IsLasting o D P
  IsLasting_of_orders order status deletion = record {
    order = order;
    status = status;
    subscription = subscribe-Keeps subscriptions_free o.runtime;
    unsubscription = unsubscribe-Keeps subscriptions_free;
    prune = delete_subscription-Keeps subscriptions_free;
    favorite = create_favorite-Keeps favorites_free o.runtime;
    removal = remove_favorite-Keeps favorites_free;
    category = add_category-Keeps (Inserts-free catalog_free) o.runtime;
    product = build_product-Keeps (Inserts-free catalog_free) o.runtime;
    update = update_product-Keeps catalog_free o.runtime;
    deletion = deletion;
    user = manager_create_user-Keeps o.auth users_free o.runtime;
    password = save_password-Keeps o.auth users_free;
    address = add_address-Keeps (insert_address-Keeps addresses_free) o.runtime;
    address_removal = delete_address-Keeps addresses_free;
  }
