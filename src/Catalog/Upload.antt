-- ===== src/Catalog/Upload.antt =====
-- src/apps/products/services.py: storing a photo, and its endpoint of the catalog admin controller. The
-- bytes go to object storage, which is a parameter.
use Prim.Native.String.{◌++◌}
use boutique_backend.Prelude.{ℕ, String, Option, some, ◌==◌, string_eq, if◌then◌else◌}
use boutique_backend.Models.{Boutique, User}
use boutique_backend.Api.{Runtime, Action, pure, lift, reads, ◌>>=◌, draw}
use boutique_backend.Tenancy.{Capability, require_membership, authenticate}

-- What `store_product_image` uses of libraries: the suffix of a file's name in lower case, the hex
-- digits of a UUID, and the storage's address for what it saved under a key.
pub record Storage : Type 0 where
  pub suffix : String → String
  pub hex : ℕ → String
  pub url : String → String

unfoldable pub image_key : Storage → Boutique → ℕ → String → String
image_key storage store uuid file_name =
    let suffix = storage.suffix file_name in
    "stores/"
    ++ store.slug
    ++ "/products/"
    ++ storage.hex uuid
    ++ (if suffix == "" then ".jpg" else suffix)

unfoldable pub store_product_image : Storage → Runtime → Boutique → String → Action String
store_product_image storage rt store file_name = do
  n ← draw
  pure (storage.url (image_key storage store (rt.uuid4 n) file_name))

-- `CatalogAdminController.upload_image`
unfoldable pub upload_image :
    Storage → Runtime → Option User → String → String → Action (ℕ × String)
upload_image storage rt auth slug file_name = do
  user ← lift (authenticate auth)
  member ← reads (require_membership user slug (some Capability.manage_catalog))
  url ← store_product_image storage rt member.1 file_name
  pure (201, url)
