-- ===== src/System/Reading.antt =====
-- The handlers that only read, and the upload of an image, which writes to the object storage alone.
use Prim.Native.Char.{Char}
use boutique_backend.Prelude.{
  ℕ, String, Bool, Option, none, some, List, select, length, ltb, ◌==◌, ℕ_eq, if◌then◌else◌,
}
use boutique_backend.Prelude.Int.{ℤ}
use boutique_backend.Prelude.Sorting.{order_by}
use boutique_backend.Models.{Boutique, User, Db, Product, Status}
use boutique_backend.Api.{http, ok, err, Runtime, reads, gets}
use boutique_backend.Api.Keeps.{
  Keeps, Keeps-pure, Keeps-reads, Keeps-gets, Keeps-bind, Keeps-check, Keeps-drawn,
}
use boutique_backend.Tenancy.{Capability, find_store, authenticate, seller_permission}
use boutique_backend.Tenancy.Roster.{members_of, store_customers, me, members, customers}
use boutique_backend.Orders.Requests.{my_orders, my_order, admin_inbox, admin_order}
use boutique_backend.Orders.Selectors.{customer_orders, customer_order, inbox, store_order}
use boutique_backend.Push.{Gateway}
use boutique_backend.Push.Requests.{key}
use boutique_backend.Favorites.{favorite_products, my_favorites}
use boutique_backend.Catalog.Criteria.{Query, Collation, query_filters}
use boutique_backend.Catalog.{
  list_products, get_product, products, product, window, clamp_limit, clamp_offset,
}
use boutique_backend.Catalog.Facets.{product_facets, facets}
use boutique_backend.Catalog.Index.{categories_index, categories}
use boutique_backend.Catalog.Upload.{store_product_image, upload_image}
use boutique_backend.Catalog.Upload
use boutique_backend.Accounts.Requests.{current_user, user_me, admin_me, my_addresses}
use boutique_backend.System.Front.{Keeps-at_store, Keeps-as_member, Keeps-then}

module _ {P : Db → Type 0} where
  module _ (is_space : Char → Bool) (collation : Collation) where
    pub products-Keeps :
        (slug sort : String) (query : Query) (limit offset : ℤ)
        → Keeps P (products is_space collation slug sort query limit offset)
    unfolding products
    products-Keeps slug sort query limit offset =
        Keeps-bind (reads (find_store slug)) _ (Keeps-reads (find_store slug)) λ (store : Boutique).
          Keeps-bind
            (gets
              (λ db. list_products collation store sort (query_filters is_space query) db.catalog))
            _
            (Keeps-gets
              (λ db. list_products collation store sort (query_filters is_space query) db.catalog))
            λ (rows : List Product). Keeps-pure (record {
              items = window (clamp_offset offset) (clamp_limit limit) rows;
              count = length rows;
              limit = clamp_limit limit;
              offset = clamp_offset offset;
            })

    pub facets-Keeps :
        (before : String → String → Bool) (slug : String) (query : Query)
        → Keeps P (facets is_space collation before slug query)
    unfolding facets
    facets-Keeps before slug query =
        Keeps-bind (reads (find_store slug)) _ (Keeps-reads (find_store slug)) λ (store : Boutique).
          Keeps-gets
            (λ db. product_facets collation before store (query_filters is_space query) db.catalog)

  pub product-Keeps : (slug product_slug : String) → Keeps P (product slug product_slug)
  unfolding product
  product-Keeps slug product_slug =
      Keeps-bind (reads (find_store slug)) _ (Keeps-reads (find_store slug))
        λ (store : Boutique). Keeps-reads (λ db. get_product store product_slug db.catalog)

  pub categories-Keeps :
      (before : String → String → Bool) (slug : String) → Keeps P (categories before slug)
  unfolding categories
  categories-Keeps before slug =
      Keeps-bind (reads (find_store slug)) _ (Keeps-reads (find_store slug))
        λ (store : Boutique). Keeps-gets (λ db. categories_index before store db.catalog)

  pub key-Keeps : (gw : Gateway) (slug : String) → Keeps P (key gw slug)
  unfolding key
  key-Keeps gw slug = Keeps-pure gw.vapid_public_key

  module _ (auth : Option User) where
    pub my_orders-Keeps : (slug : String) → Keeps P (my_orders auth slug)
    unfolding my_orders
    my_orders-Keeps slug =
        Keeps-at_store P auth slug _ λ customer store. Keeps-gets (customer_orders store customer)

    pub my_order-Keeps : (slug : String) (order_id : ℕ) → Keeps P (my_order auth slug order_id)
    unfolding my_order
    my_order-Keeps slug order_id =
        Keeps-at_store P auth slug _
          λ customer store. Keeps-reads (customer_order store customer order_id)

    pub admin_inbox-Keeps :
        (slug : String) (since since_id : Option ℕ) (status : Option Status)
        → Keeps P (admin_inbox auth slug since since_id status)
    unfolding admin_inbox
    admin_inbox-Keeps slug since since_id status =
        Keeps-as_member P auth slug (some Capability.work_orders) _
          λ member. Keeps-gets (inbox member.1 since since_id status)

    pub admin_order-Keeps :
        (slug : String) (order_id : ℕ) → Keeps P (admin_order auth slug order_id)
    unfolding admin_order
    admin_order-Keeps slug order_id =
        Keeps-as_member P auth slug (some Capability.work_orders) _
          λ member. Keeps-reads (store_order member.1 order_id)

    pub my_favorites-Keeps : (slug : String) → Keeps P (my_favorites auth slug)
    unfolding my_favorites
    my_favorites-Keeps slug =
        Keeps-at_store P auth slug _ λ customer store. Keeps-gets (favorite_products store customer)

    pub me-Keeps : (slug : String) → Keeps P (me auth slug)
    unfolding me
    me-Keeps slug = Keeps-as_member P auth slug none _ λ member.
        Keeps-pure (record { slug = member.1.slug; name = member.1.name; role = member.0.role })

    pub members-Keeps : (slug : String) → Keeps P (members auth slug)
    unfolding members
    members-Keeps slug =
        Keeps-as_member P auth slug (some Capability.manage_members) _
          λ member. Keeps-gets (members_of member.1)

    pub user_me-Keeps : Keeps P (user_me auth)
    unfolding user_me
    user_me-Keeps = Keeps-check P (authenticate auth) _ λ user. Keeps-gets (current_user user)

    pub admin_me-Keeps : (session : Option User) → Keeps P (admin_me auth session)
    unfolding admin_me
    admin_me-Keeps session = Keeps-check P (authenticate auth) _ λ user.
        Keeps-bind (gets (λ db. seller_permission db auth session)) _
          (Keeps-gets (λ db. seller_permission db auth session))
          λ (allowed : Bool).
            Keeps-check P
              (if allowed
                then ok tt
                else err (http 403 "You must be a seller to access this resource."))
              _ λ _. Keeps-gets (current_user user)

    pub my_addresses-Keeps : Keeps P (my_addresses auth)
    unfolding my_addresses
    my_addresses-Keeps = Keeps-check P (authenticate auth) _ λ (user : User). Keeps-gets λ db.
        order_by (λ later a. ltb a.created_at later.created_at)
          (select (λ a. a.user == user.id) db.addresses)

  pub customers-Keeps :
      (before : String → String → Bool) (auth : Option User) (slug : String)
      → Keeps P (customers before auth slug)
  unfolding customers
  customers-Keeps before auth slug =
      Keeps-as_member P auth slug (some Capability.work_orders) _
        λ member. Keeps-gets (store_customers before member.1)

  pub upload_image-Keeps :
      (storage : Upload.Storage) (rt : Runtime) (auth : Option User) (slug file_name : String)
      → Keeps P (upload_image storage rt auth slug file_name)
  unfolding upload_image store_product_image
  upload_image-Keeps storage rt auth slug file_name =
      Keeps-as_member P auth slug (some Capability.manage_catalog) _ λ member.
        Keeps-then (store_product_image storage rt member.1 file_name) (λ url. (201, url))
          (Keeps-drawn P _ λ n. Keeps-pure _)
