-- ===== src/Models/Stock.antt =====
-- src/apps/products/models.py
use boutique_backend.Prelude.{ℕ, String, Bool, Option}

pub record Category : Type 0 where
  pub id : ℕ
  pub store : ℕ
  pub name : String
  pub slug : String
  pub position : ℕ
  pub created_at : ℕ

pub record Product : Type 0 where
  pub id : ℕ
  pub store : ℕ
  pub category : ℕ
  pub name : String
  pub slug : String
  pub description : String
  pub price : ℕ
  pub is_visible : Bool
  pub is_featured : Bool
  pub created_at : ℕ
  pub updated_at : ℕ

pub record ProductImage : Type 0 where
  pub id : ℕ
  pub store : ℕ
  pub product : ℕ
  pub url : String
  pub alt : String
  pub position : ℕ

pub record VariantGroup : Type 0 where
  pub id : ℕ
  pub store : ℕ
  pub product : ℕ
  pub name : String
  pub position : ℕ

-- `image` is nulled when the image goes.
pub record VariantOption : Type 0 where
  pub id : ℕ
  pub store : ℕ
  pub group : ℕ
  pub value : String
  pub hex : String
  pub image : Option ℕ
  pub position : ℕ
