-- ===== src/Models.antt =====
-- The rows of the database, one record to a Django model (src/apps/*/models.py), and the database
-- itself. A UUID and a timestamp are numbers; a foreign key is the id of the row that it names.
mod Accounts
mod Stock
mod Trade
pub use Accounts.*
pub use Stock.*
pub use Trade.*
use boutique_backend.Prelude.{List}

-- The tables that only the catalog's services write.
pub record Catalog : Type 0 where
  pub categories : List Category
  pub products : List Product
  pub images : List ProductImage
  pub groups : List VariantGroup
  pub options : List VariantOption

pub record Db : Type 0 where
  pub boutiques : List Boutique
  pub memberships : List Membership
  pub users : List User
  pub addresses : List Address
  pub catalog : Catalog
  pub open catalog use *
  pub orders : List Order
  pub items : List OrderItem
  pub favorites : List Favorite
  pub subscriptions : List PushSubscription
