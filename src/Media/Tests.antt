-- ===== src/Media/Tests.antt =====
-- Runs of media.py, and the theorem at a concrete input.
use boutique_backend.Prelude.{◌≡◌, refl, String, Option, none, some, [], ◌∷◌, string_eq}
use boutique_backend.Prelude.Dict.{Dict, lookup}
use boutique_backend.Media.{Setting, text, Storage, product_image_storage, build_storages}

abbrev r2 : Dict String
r2 =
    ("R2_BUCKET", "photos")
    ∷ ("R2_PUBLIC_HOST", "https://cdn.zita.example/")
    ∷ ("R2_ENDPOINT", "https://r2.example")
    ∷ ("R2_ACCESS_KEY_ID", "key")
    ∷ ("R2_SECRET_ACCESS_KEY", "secret")
    ∷ []

abbrev custom_domain : Option Storage → Option Setting
custom_domain none = none
custom_domain (some s) = elim s.options [ none ↦ none | some o ↦ lookup "custom_domain" o ]

run-product_image_storage :
    custom_domain (product_image_storage (λ name. lookup name r2)) ≡ some (text "cdn.zita.example")
unfolding product_image_storage
run-product_image_storage = refl

-- A bucket without its keys stops the settings module.
run-build_storages : build_storages (λ name. lookup name (("R2_BUCKET", "photos") ∷ [])) ≡ none
unfolding build_storages product_image_storage
run-build_storages = refl
