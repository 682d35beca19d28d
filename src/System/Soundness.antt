-- ===== src/System/Soundness.antt =====
-- What every course of the database keeps: all the unique constraints, and the totals of the orders.
use boutique_backend.Prelude.{◌==◌, ℕ_eq, string_eq, ◌&&◌, ◌||◌}
use boutique_backend.Prelude.Constraints.{IsDistinct, reject-IsDistinct}
use boutique_backend.Models.{Boutique, Membership, Db}
use boutique_backend.Orders.Items.{
  ItemsAreUnique, build_order-ItemsAreUnique, without-ItemsAreUnique,
}
use boutique_backend.Accounts.Addresses.{
  AddressesAreUnique, add_address-AddressesAreUnique, delete_address-AddressesAreUnique,
}
use boutique_backend.Orders.Frame.{
  insert_item-Keeps, insert_order-Keeps, build_order-Keeps, set_status-Keeps,
}
use boutique_backend.Orders.Keys.{
  KeysAreUnique, build_order-KeysAreUnique, update_status-KeysAreUnique,
}
use boutique_backend.Orders.Totals.{IsPriced}
use boutique_backend.Orders.Ledger.{build_order-IsPriced, set_status-IsPriced}
use boutique_backend.Push.{delete_subscription}
use boutique_backend.Push.Registration.{
  EndpointsAreUnique, subscribe-EndpointsAreUnique, unsubscribe-EndpointsAreUnique,
  delete_subscription-EndpointsAreUnique, subscribe-Keeps, unsubscribe-Keeps,
  delete_subscription-Keeps,
}
use boutique_backend.Favorites.{clash_favorite}
use boutique_backend.Favorites.Constraint.{
  FavoritesAreUnique, create_favorite-FavoritesAreUnique, remove_favorite-FavoritesAreUnique,
  create_favorite-Keeps, remove_favorite-Keeps,
}
use boutique_backend.Catalog.Creation.Constraints.{CatalogIsUnique, Inserts-CatalogIsUnique}
use boutique_backend.Catalog.Creation.Frame.{Inserts-free, add_category-Keeps, build_product-Keeps}
use boutique_backend.Catalog.Writes.{without_product}
use boutique_backend.Catalog.Frame.{update_product-Keeps}
use boutique_backend.Catalog.Update.{update_product-CatalogIsUnique, without-CatalogIsUnique}
use boutique_backend.Catalog.Deletion.{without-IsPriced}
use boutique_backend.Accounts.Frame.{
  manager_create_user-Keeps, save_password-Keeps, insert_address-Keeps, add_address-Keeps,
  delete_address-Keeps,
}
use boutique_backend.Accounts.Registration.{
  UsersAreUnique, manager-UsersAreUnique, save_password-UsersAreUnique,
}
use boutique_backend.System.{Outside, Run}
use boutique_backend.System.Lasting.{IsLasting, Anything, IsLasting_of_orders}
use boutique_backend.System.Course.{Run-Lasting}

pub KeysAreUnique-IsLasting : (o : Outside) → IsLasting o Anything KeysAreUnique
unfolding delete_subscription without_product
KeysAreUnique-IsLasting o =
    IsLasting_of_orders o (λ db xs h. h) (λ db xs h. h) (λ db xs h. h) (λ db xs h. h) (λ db xs h. h)
      (build_order-KeysAreUnique o.runtime)
      (set_status-Keeps o.runtime o.gateway update_status-KeysAreUnique (λ s db h. h))
      (λ id _ db h. h)

IsPriced-IsLasting : (o : Outside) → IsLasting o Anything IsPriced
IsPriced-IsLasting o =
    IsLasting_of_orders o (λ db xs h. h) (λ db xs h. h) (λ db xs h. h) (λ db xs h. h) (λ db xs h. h)
      (build_order-IsPriced o.runtime)
      (λ store order_id s. record { at = set_status-IsPriced o.runtime o.gateway store order_id s })
      (λ id _. without-IsPriced id)

EndpointsAreUnique-IsLasting : (o : Outside) → IsLasting o Anything EndpointsAreUnique
unfolding delete_subscription without_product
EndpointsAreUnique-IsLasting o = record {
  order =
      build_order-Keeps o.runtime (insert_order-Keeps o.runtime (λ db xs h. h)) (λ id t db h. h)
        (insert_item-Keeps o.runtime (λ db xs h. h));
  status =
      set_status-Keeps o.runtime o.gateway (λ id s now db h. h)
        delete_subscription-EndpointsAreUnique;
  subscription = λ store user endpoint p256dh auth. record {
    at = subscribe-EndpointsAreUnique o.runtime store user endpoint p256dh auth;
  };
  unsubscription = unsubscribe-EndpointsAreUnique;
  prune = delete_subscription-EndpointsAreUnique;
  favorite = create_favorite-Keeps (λ db xs h. h) o.runtime;
  removal = remove_favorite-Keeps (λ db xs h. h);
  category = add_category-Keeps (Inserts-free (λ db xs h. h)) o.runtime;
  product = build_product-Keeps (Inserts-free (λ db xs h. h)) o.runtime;
  update = update_product-Keeps (λ db xs h. h) o.runtime;
  deletion = λ id _ db h. h;
  user = manager_create_user-Keeps o.auth (λ db xs h. h) o.runtime;
  password = save_password-Keeps o.auth (λ db xs h. h);
  address = add_address-Keeps (insert_address-Keeps (λ db xs h. h)) o.runtime;
  address_removal = delete_address-Keeps (λ db xs h. h);
}

FavoritesAreUnique-IsLasting : (o : Outside) → IsLasting o Anything FavoritesAreUnique
unfolding delete_subscription without_product
FavoritesAreUnique-IsLasting o = record {
  order =
      build_order-Keeps o.runtime (insert_order-Keeps o.runtime (λ db xs h. h)) (λ id t db h. h)
        (insert_item-Keeps o.runtime (λ db xs h. h));
  status = set_status-Keeps o.runtime o.gateway (λ id s now db h. h) (λ s db h. h);
  subscription = subscribe-Keeps (λ db xs h. h) o.runtime;
  unsubscription = unsubscribe-Keeps (λ db xs h. h);
  prune = delete_subscription-Keeps (λ db xs h. h);
  favorite = create_favorite-FavoritesAreUnique o.runtime;
  removal = remove_favorite-FavoritesAreUnique;
  category = add_category-Keeps (Inserts-free (λ db xs h. h)) o.runtime;
  product = build_product-Keeps (Inserts-free (λ db xs h. h)) o.runtime;
  update = update_product-Keeps (λ db xs h. h) o.runtime;
  deletion = λ id _ db h. reject-IsDistinct clash_favorite (λ f. f.product == id) db.favorites h;
  user = manager_create_user-Keeps o.auth (λ db xs h. h) o.runtime;
  password = save_password-Keeps o.auth (λ db xs h. h);
  address = add_address-Keeps (insert_address-Keeps (λ db xs h. h)) o.runtime;
  address_removal = delete_address-Keeps (λ db xs h. h);
}

CatalogIsUnique-IsLasting : (o : Outside) → IsLasting o Anything CatalogIsUnique
unfolding delete_subscription without_product
CatalogIsUnique-IsLasting o = record {
  order =
      build_order-Keeps o.runtime (insert_order-Keeps o.runtime (λ db xs h. h)) (λ id t db h. h)
        (insert_item-Keeps o.runtime (λ db xs h. h));
  status = set_status-Keeps o.runtime o.gateway (λ id s now db h. h) (λ s db h. h);
  subscription = subscribe-Keeps (λ db xs h. h) o.runtime;
  unsubscription = unsubscribe-Keeps (λ db xs h. h);
  prune = delete_subscription-Keeps (λ db xs h. h);
  favorite = create_favorite-Keeps (λ db xs h. h) o.runtime;
  removal = remove_favorite-Keeps (λ db xs h. h);
  category = add_category-Keeps Inserts-CatalogIsUnique o.runtime;
  product = build_product-Keeps Inserts-CatalogIsUnique o.runtime;
  update = update_product-CatalogIsUnique o.runtime;
  deletion = λ id _. without-CatalogIsUnique id;
  user = manager_create_user-Keeps o.auth (λ db xs h. h) o.runtime;
  password = save_password-Keeps o.auth (λ db xs h. h);
  address = add_address-Keeps (insert_address-Keeps (λ db xs h. h)) o.runtime;
  address_removal = delete_address-Keeps (λ db xs h. h);
}

UsersAreUnique-IsLasting : (o : Outside) → IsLasting o Anything UsersAreUnique
unfolding delete_subscription without_product
UsersAreUnique-IsLasting o = record {
  order =
      build_order-Keeps o.runtime (insert_order-Keeps o.runtime (λ db xs h. h)) (λ id t db h. h)
        (insert_item-Keeps o.runtime (λ db xs h. h));
  status = set_status-Keeps o.runtime o.gateway (λ id s now db h. h) (λ s db h. h);
  subscription = subscribe-Keeps (λ db xs h. h) o.runtime;
  unsubscription = unsubscribe-Keeps (λ db xs h. h);
  prune = delete_subscription-Keeps (λ db xs h. h);
  favorite = create_favorite-Keeps (λ db xs h. h) o.runtime;
  removal = remove_favorite-Keeps (λ db xs h. h);
  category = add_category-Keeps (Inserts-free (λ db xs h. h)) o.runtime;
  product = build_product-Keeps (Inserts-free (λ db xs h. h)) o.runtime;
  update = update_product-Keeps (λ db xs h. h) o.runtime;
  deletion = λ id _ db h. h;
  user = manager-UsersAreUnique o.auth o.runtime;
  password = save_password-UsersAreUnique;
  address = add_address-Keeps (insert_address-Keeps (λ db xs h. h)) o.runtime;
  address_removal = delete_address-Keeps (λ db xs h. h);
}

AddressesAreUnique-IsLasting : (o : Outside) → IsLasting o Anything AddressesAreUnique
unfolding delete_subscription without_product
AddressesAreUnique-IsLasting o = record {
  order =
      build_order-Keeps o.runtime (insert_order-Keeps o.runtime (λ db xs h. h)) (λ id t db h. h)
        (insert_item-Keeps o.runtime (λ db xs h. h));
  status = set_status-Keeps o.runtime o.gateway (λ id s now db h. h) (λ s db h. h);
  subscription = subscribe-Keeps (λ db xs h. h) o.runtime;
  unsubscription = unsubscribe-Keeps (λ db xs h. h);
  prune = delete_subscription-Keeps (λ db xs h. h);
  favorite = create_favorite-Keeps (λ db xs h. h) o.runtime;
  removal = remove_favorite-Keeps (λ db xs h. h);
  category = add_category-Keeps (Inserts-free (λ db xs h. h)) o.runtime;
  product = build_product-Keeps (Inserts-free (λ db xs h. h)) o.runtime;
  update = update_product-Keeps (λ db xs h. h) o.runtime;
  deletion = λ id _ db h. h;
  user = manager_create_user-Keeps o.auth (λ db xs h. h) o.runtime;
  password = save_password-Keeps o.auth (λ db xs h. h);
  address = add_address-AddressesAreUnique o.runtime;
  address_removal = delete_address-AddressesAreUnique;
}

ItemsAreUnique-IsLasting : (o : Outside) → IsLasting o Anything ItemsAreUnique
unfolding delete_subscription
ItemsAreUnique-IsLasting o =
    IsLasting_of_orders o (λ db xs h. h) (λ db xs h. h) (λ db xs h. h) (λ db xs h. h) (λ db xs h. h)
      (build_order-ItemsAreUnique o.runtime)
      (set_status-Keeps o.runtime o.gateway (λ id s now db h. h) (λ s db h. h))
      (λ id _. without-ItemsAreUnique id)

-- The keys of the boutiques and of their members, one slug to a boutique, and one membership to a user
-- at a boutique. No request writes these tables.
abbrev pub TenantsAreUnique : Db → Type 0
TenantsAreUnique db =
    IsDistinct (λ (a b : Boutique). a.id == b.id || a.slug == b.slug) db.boutiques
    × IsDistinct
        (λ (a b : Membership). a.id == b.id || (a.user == b.user && a.boutique == b.boutique))
        db.memberships

TenantsAreUnique-IsLasting : (o : Outside) → IsLasting o Anything TenantsAreUnique
unfolding delete_subscription without_product
TenantsAreUnique-IsLasting o =
    IsLasting_of_orders o (λ db xs h. h) (λ db xs h. h) (λ db xs h. h) (λ db xs h. h) (λ db xs h. h)
      (build_order-Keeps o.runtime (insert_order-Keeps o.runtime (λ db xs h. h)) (λ id t db h. h)
        (insert_item-Keeps o.runtime (λ db xs h. h)))
      (set_status-Keeps o.runtime o.gateway (λ id s now db h. h) (λ s db h. h)) (λ id _ db h. h)

-- In every table of the model the primary key and the unique constraints hold, and every order costs
-- what its lines come to.
pub record IsSound (db : Db) : Type 0 where
  pub tenants : TenantsAreUnique db
  pub addresses : AddressesAreUnique db
  pub items : ItemsAreUnique db
  pub keys : KeysAreUnique db
  pub priced : IsPriced db
  pub endpoints : EndpointsAreUnique db
  pub favorites : FavoritesAreUnique db
  pub catalog : CatalogIsUnique db
  pub users : UsersAreUnique db

-- No course of requests through the API, whatever they carry, however they interleave with the gaps
-- of one another and whether they are answered or refused, takes a database out of the invariant: the
-- primary keys and the unique constraints of all tables of the model hold, and every order costs what
-- its lines come to.
pub Run-IsSound : (o : Outside) (a b : Db) → Run o a b → IsSound a → IsSound b
Run-IsSound o a b run h = record {
  tenants = Run-Lasting (TenantsAreUnique-IsLasting o) run (λ id d. tt) h.tenants;
  addresses = Run-Lasting (AddressesAreUnique-IsLasting o) run (λ id d. tt) h.addresses;
  items = Run-Lasting (ItemsAreUnique-IsLasting o) run (λ id d. tt) h.items;
  keys = Run-Lasting (KeysAreUnique-IsLasting o) run (λ id d. tt) h.keys;
  priced = Run-Lasting (IsPriced-IsLasting o) run (λ id d. tt) h.priced;
  endpoints = Run-Lasting (EndpointsAreUnique-IsLasting o) run (λ id d. tt) h.endpoints;
  favorites = Run-Lasting (FavoritesAreUnique-IsLasting o) run (λ id d. tt) h.favorites;
  catalog = Run-Lasting (CatalogIsUnique-IsLasting o) run (λ id d. tt) h.catalog;
  users = Run-Lasting (UsersAreUnique-IsLasting o) run (λ id d. tt) h.users;
}
