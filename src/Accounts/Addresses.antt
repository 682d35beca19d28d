-- ===== src/Accounts/Addresses.antt =====
-- src/apps/users/services.py: the primary key of the saved addresses.
use boutique_backend.Prelude.{ℕ, ◌≡◌, Bool, reject, ◌==◌, ℕ_eq, arith}
use boutique_backend.Prelude.Constraints.{IsDistinct, append-IsDistinct, reject-IsDistinct}
use boutique_backend.Models.{User, Address, Db}
use boutique_backend.Api.{Runtime}
use boutique_backend.Api.Keeps.{Keeps, Keeps-modify_db}
use boutique_backend.Accounts.{
  AddressFields, insert_address, add_address, is_own_address, delete_address,
}
use boutique_backend.Accounts.Frame.{add_address-Keeps}

abbrev pub clash_address : Address → Address → Bool
clash_address a b = b.id == a.id

-- No two addresses share an id.
abbrev pub AddressesAreUnique : Db → Type 0
AddressesAreUnique db = IsDistinct clash_address db.addresses

clash_address_comm : (a b : Address) → clash_address a b ≡ clash_address b a
clash_address_comm a b = ground arith

insert_address-AddressesAreUnique : (a : Address) → Keeps AddressesAreUnique (insert_address a)
unfolding insert_address
insert_address-AddressesAreUnique a = record {
  at = λ w h. ground (arith, append-IsDistinct clash_address clash_address_comm a w.db.addresses h);
}

pub add_address-AddressesAreUnique :
    (rt : Runtime) (user : User) (f : AddressFields)
    → Keeps AddressesAreUnique (add_address rt user f)
add_address-AddressesAreUnique = add_address-Keeps insert_address-AddressesAreUnique

pub delete_address-AddressesAreUnique :
    (user : User) (address_id : ℕ) → Keeps AddressesAreUnique (delete_address user address_id)
unfolding delete_address
delete_address-AddressesAreUnique user address_id =
    Keeps-modify_db
      (λ db. record db { addresses = reject (is_own_address user address_id) db.addresses })
      (λ db. reject-IsDistinct clash_address (is_own_address user address_id) db.addresses)
