-- ===== src/Models/Trade.antt =====
-- src/apps/orders/models.py, src/apps/favorites/models.py and src/apps/push/models.py
use boutique_backend.Prelude.{ℕ, String, Option}
use boutique_backend.Prelude.Dict.{Dict}

-- `Order.Status`
pub data Status : Type 0 where
  new confirmed fulfilled cancelled : Status

pub record Order : Type 0 where
  pub id : ℕ
  pub store : ℕ
  pub customer : ℕ
  pub status : Status
  pub contact_name : String
  pub phone : String
  pub delivery_address : String
  pub note : String
  pub total : ℕ
  pub idempotency_key : String
  pub created_at : ℕ
  pub updated_at : ℕ

-- `product` is nulled when the product goes; all else is a snapshot.
pub record OrderItem : Type 0 where
  pub id : ℕ
  pub store : ℕ
  pub order : ℕ
  pub product : Option ℕ
  pub quantity : ℕ
  pub unit_price : ℕ
  pub name_snapshot : String
  pub image_url_snapshot : String
  pub options : Dict String

pub record Favorite : Type 0 where
  pub id : ℕ
  pub customer : ℕ
  pub store : ℕ
  pub product : ℕ
  pub created_at : ℕ

pub record PushSubscription : Type 0 where
  pub id : ℕ
  pub user : ℕ
  pub store : ℕ
  pub endpoint : String
  pub p256dh : String
  pub auth : String
  pub created_at : ℕ
