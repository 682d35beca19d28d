-- ===== src/Models/Accounts.antt =====
-- src/apps/boutiques/models.py and src/apps/users/models.py
use boutique_backend.Prelude.{ℕ, String, Bool, true, false}

pub record Boutique : Type 0 where
  pub id : ℕ
  pub slug : String
  pub name : String
  pub created_at : ℕ

-- `Membership.Role`
pub data Role : Type 0 where
  owner staff : Role

pub record Membership : Type 0 where
  pub id : ℕ
  pub user : ℕ
  pub boutique : ℕ
  pub role : Role
  pub created_at : ℕ

-- `Membership.is_owner`
abbrev pub is_owner : Membership → Bool
is_owner m = elim m.role [ owner ↦ true | staff ↦ false ]

pub record User : Type 0 where
  pub id : ℕ
  pub name : String
  pub email : String
  pub phone_number : String
  pub password : String
  pub is_active : Bool
  pub is_staff : Bool
  pub is_superuser : Bool
  pub created_at : ℕ

pub record Address : Type 0 where
  pub id : ℕ
  pub user : ℕ
  pub label : String
  pub contact_name : String
  pub phone : String
  pub address : String
  pub created_at : ℕ
