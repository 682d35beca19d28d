-- ===== src/Settings.antt =====
-- src/boutique/settings.py: the settings as a function of the environment.
pub mod Environment
pub mod Constants
pub mod Origins
pub mod Loading
pub mod Deployment
mod Tests
use boutique_backend.Prelude.{
  ℕ, String, Bool, true, false, not, Option, none, some, List, [], ◌∷◌, select, map, is_empty, ◌==◌,
  ℕ_eq, string_eq, if◌then◌else◌,
}
use boutique_backend.Prelude.Dict.{Dict, insert}
use boutique_backend.Prelude.Int.{ℤ, pos}
use boutique_backend.Prelude.Strings.{lstrip, strip, split_char}
use boutique_backend.Media.{Storage, build_storages}
use Environment.{
  Failure, improperly_configured, value_error, Loaded, loaded, failed, ◌>>=◌, Url, Environ, env_str,
  str_or, env_bool, bool_or, env_list, int_of, int_or,
}
use Constants.{time_zone}
use Prim.Native.Char.{Char, code}

-- `DATABASES["default"]`
pub record Database : Type 0 where
  pub engine : String
  pub name : String
  pub user : Option String
  pub password : Option String
  pub host : Option String
  pub port : ℕ
  pub options : Dict String
  pub conn_max_age : ℕ

-- What the last block sets where DEBUG is off; where it is on, Django's defaults stand.
pub record Hardening : Type 0 where
  pub secure_ssl_redirect : Bool
  pub session_cookie_secure : Bool
  pub csrf_cookie_secure : Bool
  pub secure_hsts_seconds : ℕ

pub record Email : Type 0 where
  pub backend : String
  pub host : String
  pub port : ℤ
  pub host_user : String
  pub host_password : String
  pub use_tls : Bool
  pub use_ssl : Bool
  pub default_from_email : String
  pub timeout : ℤ

pub record Celery : Type 0 where
  pub broker_url : String
  pub task_always_eager : Bool
  pub task_eager_propagates : Bool
  pub task_serializer : String
  pub accept_content : List String
  pub timezone : String

pub record Vapid : Type 0 where
  pub public_key : String
  pub private_key : String
  pub subject : String

-- The settings that depend on the environment.
pub record Settings : Type 0 where
  pub secret_key : String
  pub debug : Bool
  pub frontend_url : String
  pub allowed_hosts : List String
  pub csrf_trusted_origins : List String
  pub append_slash : Bool
  pub cors_allowed_origins : List String
  pub database : Database
  pub storages : Dict Storage
  pub hardening : Option Hardening
  pub email : Email
  pub celery : Celery
  pub vapid : Vapid

-- `if DEBUG: ALLOWED_HOSTS = …`
abbrev pub local_hosts : List String
local_hosts = "localhost" ∷ "127.0.0.1" ∷ []

abbrev pub local_origins : List String
local_origins =
    "http://localhost:3000" ∷ "http://127.0.0.1:3000" ∷ "http://localhost:8000"
    ∷ "http://127.0.0.1:8000" ∷ []

-- `[o.strip() for o in origins.split(",") if o.strip()] or [FRONTEND_URL]`
abbrev pub stripped : Environ → String → List String
stripped env origins =
    select (λ o. not (o == "")) (map (strip env.is_space) (split_char 44 origins))

abbrev pub or_frontend : String → List String → List String
or_frontend frontend_url origins = if is_empty origins then frontend_url ∷ [] else origins

unfoldable pub cors_origins : Environ → String → String → List String
cors_origins env origins frontend_url = or_frontend frontend_url (stripped env origins)

-- `dict(pairs)`
abbrev pub dict_of : List (String × String) → Dict String → Dict String
dict_of [] d = d
dict_of ((k, v) ∷ ps) d = dict_of ps (insert k v d)

-- `_db.port or 5432`
abbrev pub port_or : Option ℕ → ℕ
port_or none = 5432
port_or (some n) = if n == 0 then 5432 else n

abbrev pub url_of : Option Url → Loaded Url
url_of none = failed value_error
url_of (some u) = loaded u

abbrev pub port_of : Option (Option ℕ) → Loaded ℕ
port_of none = failed value_error
port_of (some port) = loaded (port_or port)

unfoldable pub database_of : Environ → String → Loaded Database
database_of env database_url = do
  url ← url_of (env.urlparse database_url)
  port ← port_of url.port
  loaded (record {
    engine = "django.db.backends.postgresql";
    name = lstrip (λ c. code c == 47) url.path;
    user = url.username;
    password = url.password;
    host = url.hostname;
    port = port;
    options = dict_of (env.parse_qsl url.query) [];
    conn_max_age = 0;
  })

abbrev pub storages_of : Environ → Loaded (Dict Storage)
storages_of env = elim (build_storages env.value) [
  | none ↦ failed improperly_configured
  | some storages ↦ loaded storages
]

-- `if not DEBUG:`
abbrev pub hardening_of : Bool → Option Hardening
hardening_of debug =
    if not debug
    then some (record {
      secure_ssl_redirect = true;
      session_cookie_secure = true;
      csrf_cookie_secure = true;
      secure_hsts_seconds = 3600;
    })
    else none

unfoldable pub email_of : Environ → Loaded Email
email_of env = do
  port ← int_or env (pos 587) "EMAIL_PORT"
  timeout ← int_or env (pos 10) "EMAIL_TIMEOUT"
  loaded (record {
    backend = str_or env "django.core.mail.backends.console.EmailBackend" "EMAIL_BACKEND";
    host = str_or env "" "EMAIL_HOST";
    port = port;
    host_user = str_or env "" "EMAIL_HOST_USER";
    host_password = str_or env "" "EMAIL_HOST_PASSWORD";
    use_tls = bool_or env true "EMAIL_USE_TLS";
    use_ssl = bool_or env false "EMAIL_USE_SSL";
    default_from_email = str_or env "Zita Boutique <no-reply@amedeyo.com>" "DEFAULT_FROM_EMAIL";
    timeout = timeout;
  })

unfoldable pub celery_of : Environ → Celery
celery_of env = record {
  broker_url = str_or env "redis://localhost:6379/0" "CELERY_BROKER_URL";
  task_always_eager = bool_or env false "CELERY_TASK_ALWAYS_EAGER";
  task_eager_propagates = true;
  task_serializer = "json";
  accept_content = "json" ∷ [];
  timezone = time_zone;
}

unfoldable pub vapid_of : Environ → Vapid
vapid_of env = record {
  public_key = str_or env "" "VAPID_PUBLIC_KEY";
  private_key = str_or env "" "VAPID_PRIVATE_KEY";
  subject = str_or env "mailto:hello@zita.example" "VAPID_SUBJECT";
}

-- The module, from its first line to its last.
unfoldable pub load : Environ → Loaded Settings
load env = do
  secret_key ← env_str env "DJANGO_SECRET_KEY"
  debug ← env_bool env "DJANGO_DEBUG"
  frontend_url ← env_str env "FRONTEND_URL"
  allowed_hosts ← env_list env "DJANGO_ALLOWED_HOSTS"
  csrf_trusted_origins ← env_list env "DJANGO_CSRF_TRUSTED_ORIGINS"
  append_slash ← env_bool env "DJANGO_APPEND_SLASH"
  database_url ← env_str env "DATABASE_URL"
  database ← database_of env database_url
  storages ← storages_of env
  email ← email_of env
  loaded (record {
    secret_key = secret_key;
    debug = debug;
    frontend_url = frontend_url;
    allowed_hosts = if debug then local_hosts else allowed_hosts;
    csrf_trusted_origins = if debug then local_origins else csrf_trusted_origins;
    append_slash = append_slash;
    cors_allowed_origins = cors_origins env (str_or env "" "CORS_ALLOWED_ORIGINS") frontend_url;
    database = database;
    storages = storages;
    hardening = hardening_of debug;
    email = email;
    celery = celery_of env;
    vapid = vapid_of env;
  })
