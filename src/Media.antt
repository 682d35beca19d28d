-- ===== src/Media.antt =====
-- src/boutique/media.py: where product photos are stored. `environ.Env` is a parameter, the value of
-- each variable that is set.
pub mod Host
mod Tests
use boutique_backend.Prelude.{
  String, Bool, true, false, Option, none, some, List, [], ◌∷◌, ◌==◌, string_eq, if◌then◌else◌,
}
use boutique_backend.Prelude.Dict.{Dict}
use boutique_backend.Prelude.Strings.{rstrip_char, removeprefix}

-- A value of a storage's options.
pub data Setting : Type 0 where
  text : String → Setting
  flag : Bool → Setting
  none_setting : Setting

-- `{"BACKEND": …, "OPTIONS": …}`
pub record Storage : Type 0 where
  pub backend : String
  pub options : Option (Dict Setting)

abbrev pub Env : Type 0
Env = String → Option String

-- `env.str(name, default="")`
abbrev pub str_or_empty : Env → String → String
str_or_empty env name = elim (env name) [ none ↦ "" | some value ↦ value ]

abbrev pub public_host : String → String
public_host value = rstrip_char 47 (removeprefix "http://" (removeprefix "https://" value))

abbrev pub r2_storage : String → String → String → String → String → Storage
r2_storage bucket host endpoint access_key secret_key = record {
  backend = "storages.backends.s3.S3Storage";
  options = some (
      ("bucket_name", text bucket)
      ∷ ("endpoint_url", text endpoint)
      ∷ ("access_key", text access_key)
      ∷ ("secret_key", text secret_key)
      ∷ ("custom_domain", text (public_host host))
      ∷ ("querystring_auth", flag false)
      ∷ ("default_acl", none_setting)
      ∷ ("file_overwrite", flag false)
      ∷ ("region_name", text "auto")
      ∷ []);
}

abbrev pub in_memory : Storage
in_memory = record {
  backend = "django.core.files.storage.InMemoryStorage";
  options = some (("base_url", text "http://testserver/media/") ∷ []);
}

-- `env.str(name)`, which raises where the variable is not set
abbrev pub required : {A : Type 0} → Env → String → (String → Option A) → Option A
required env name rest = elim (env name) [ none ↦ none | some value ↦ rest value ]

-- `none` is the exception ImproperlyConfigured.
unfoldable pub product_image_storage : Env → Option Storage
product_image_storage env =
    let bucket = str_or_empty env "R2_BUCKET" in
    if bucket == ""
    then some in_memory
    else required env "R2_PUBLIC_HOST" λ host. required env "R2_ENDPOINT" λ endpoint.
      required env "R2_ACCESS_KEY_ID" λ access_key.
        required env "R2_SECRET_ACCESS_KEY"
          λ secret_key. some (r2_storage bucket host endpoint access_key secret_key)

unfoldable pub build_storages : Env → Option (Dict Storage)
build_storages env = elim (product_image_storage env) [
  | none ↦ none
  | some images ↦ some (
      (
        "default",
        record { backend = "django.core.files.storage.FileSystemStorage"; options = none },
      )
      ∷ (
        "staticfiles",
        record {
          backend = "whitenoise.storage.CompressedManifestStaticFilesStorage";
          options = none;
        },
      )
      ∷ ("product_images", images)
      ∷ [])
]
