-- ===== src/Settings/Tests.antt =====
-- Runs of settings.py, and the theorems at a concrete environment.
use boutique_backend.Prelude.{
  arith, ◌≡◌, refl, ◌⊎◌, inl, inr, String, true, false, none, some, List, [], ◌∷◌, ◌==◌, string_eq,
}
use boutique_backend.Prelude.Dict.{Dict, lookup, insert}
use boutique_backend.Prelude.Members.{In}
use Prim.Native.Char.{code}
use boutique_backend.Prelude.{ℕ_eq}
use boutique_backend.Media.{product_image_storage, build_storages}
use boutique_backend.Settings.Origins.{cors_origins_iff, cors_origins-join_commas}
use boutique_backend.Settings.Loading.{IsConfigured}
use boutique_backend.Settings.Deployment.{load_iff, load_lem}
use boutique_backend.Settings.Environment.{
  improperly_configured, Loaded, loaded, failed, Url, Environ, env_list,
}
use boutique_backend.Settings.{
  Settings, cors_origins, database_of, email_of, local_hosts, local_origins, load,
}

abbrev production : Dict String
production =
    ("DJANGO_SECRET_KEY", "s3cret")
    ∷ ("DJANGO_DEBUG", "false")
    ∷ ("FRONTEND_URL", "https://zita.example")
    ∷ ("DJANGO_ALLOWED_HOSTS", "api.zita.example")
    ∷ ("DJANGO_CSRF_TRUSTED_ORIGINS", "https://zita.example")
    ∷ ("DJANGO_APPEND_SLASH", "true")
    ∷ ("CORS_ALLOWED_ORIGINS", "https://zita.example, https://www.zita.example")
    ∷ ("DATABASE_URL", "postgresql://zita@db.example/boutique")
    ∷ []

abbrev address : Url
address = record {
  path = "/boutique";
  username = some "zita";
  password = none;
  hostname = some "db.example";
  port = some none;
  query = "";
}

abbrev environ : Dict String → Environ
environ values = record {
  value = λ name. lookup name values;
  read_bool = λ v. v == "true";
  read_list = λ v. v ∷ [];
  read_int = λ v. none;
  urlparse = λ v. some address;
  parse_qsl = λ q. [];
  is_space = λ c. code c == 32;
}

run-cors_origins :
    cors_origins (environ []) "https://zita.example, ,https://www.zita.example " "x"
    ≡ "https://zita.example" ∷ "https://www.zita.example" ∷ []
unfolding cors_origins
run-cors_origins = refl

-- A missing secret key stops the module.
run-load : load (environ []) ≡ failed improperly_configured
unfolding load
run-load = refl

abbrev settings_of : Loaded Settings → List String
settings_of (loaded s) = s.allowed_hosts
settings_of (failed e) = []

-- Development replaces the hosts of the environment.
run-development :
    settings_of (load (environ (insert "DJANGO_DEBUG" "true" production))) ≡ local_hosts
unfolding load database_of email_of build_storages product_image_storage
run-development = refl

production-IsConfigured : IsConfigured (environ production)
unfolding build_storages product_image_storage
production-IsConfigured = record {
  secret_key = ("s3cret", refl);
  debug = ("false", refl);
  frontend_url = ("https://zita.example", refl);
  allowed_hosts = ("api.zita.example", refl);
  csrf_trusted_origins = ("https://zita.example", refl);
  append_slash = ("true", refl);
  database = ("postgresql://zita@db.example/boutique", (refl, (address, (refl, (none, refl)))));
  storages = (_, refl);
  email_port = λ v h. absurd (ground arith);
  email_timeout = λ v h. absurd (ground arith);
}

load_iff_example : (s : Settings) × (load (environ production) ≡ loaded s)
load_iff_example = (load_iff (environ production)).1 production-IsConfigured

production_settings : (s : Settings) × (load (environ production) ≡ loaded s)
production_settings = (load_iff (environ production)).1 production-IsConfigured

load_lem_example :
    let s = production_settings.0 in
    ((s.debug ≡ true)
      × ((s.allowed_hosts ≡ local_hosts)
          × ((s.csrf_trusted_origins ≡ local_origins) × (s.hardening ≡ none))))
    ⊎ ((s.debug ≡ false)
        × ((loaded s.allowed_hosts ≡ env_list (environ production) "DJANGO_ALLOWED_HOSTS")
            × ((loaded s.csrf_trusted_origins
                  ≡ env_list (environ production) "DJANGO_CSRF_TRUSTED_ORIGINS")
                × (s.hardening
                    ≡ some (record {
                      secure_ssl_redirect = true;
                      session_cookie_secure = true;
                      csrf_cookie_secure = true;
                      secure_hsts_seconds = 3600;
                    })))))
load_lem_example = load_lem (environ production) production_settings.0 production_settings.1

cors_origins_iff_example :
    In "https://www.zita.example"
      (cors_origins (environ []) "https://zita.example, https://www.zita.example" "x")
cors_origins_iff_example =
    (cors_origins_iff (environ []) "https://zita.example, https://www.zita.example" "x"
        "https://www.zita.example").1
      (inl (" https://www.zita.example", (inr (inl refl), (refl, refl))))

cors_origins-join_commas_example :
    cors_origins (environ []) "https://zita.example,https://www.zita.example" "x"
    ≡ "https://zita.example" ∷ "https://www.zita.example" ∷ []
cors_origins-join_commas_example =
    cors_origins-join_commas (environ []) "x" "https://zita.example"
      ("https://www.zita.example" ∷ [])
      (record { trimmed = refl; not_blank = refl; no_comma = refl })
      (record { trimmed = refl; not_blank = refl; no_comma = refl }, tt)
