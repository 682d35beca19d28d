-- ===== src/Settings/Constants.antt =====
-- The settings that do not depend on the environment.
use boutique_backend.Prelude.{ℕ, ◌*◌, String, Bool, true, List, [], ◌∷◌}

abbrev pub site_id : ℕ
site_id = 1

abbrev pub cors_allow_credentials : Bool
cors_allow_credentials = true

abbrev pub installed_apps : List String
installed_apps =
    "django.contrib.admin" ∷ "django.contrib.auth" ∷ "django.contrib.contenttypes"
    ∷ "django.contrib.sessions" ∷ "django.contrib.messages" ∷ "django.contrib.staticfiles"
    ∷ "corsheaders" ∷ "ninja_extra" ∷ "ninja_jwt" ∷ "ninja_jwt.token_blacklist" ∷ "apps.boutiques"
    ∷ "apps.users" ∷ "apps.products" ∷ "apps.orders" ∷ "apps.favorites" ∷ "apps.push" ∷ []

abbrev pub middleware : List String
middleware =
    "corsheaders.middleware.CorsMiddleware" ∷ "django.middleware.security.SecurityMiddleware"
    ∷ "whitenoise.middleware.WhiteNoiseMiddleware"
    ∷ "django.contrib.sessions.middleware.SessionMiddleware"
    ∷ "django.middleware.common.CommonMiddleware" ∷ "django.middleware.csrf.CsrfViewMiddleware"
    ∷ "django.contrib.auth.middleware.AuthenticationMiddleware"
    ∷ "django.contrib.messages.middleware.MessageMiddleware"
    ∷ "django.middleware.clickjacking.XFrameOptionsMiddleware" ∷ []

abbrev pub root_urlconf : String
root_urlconf = "boutique.urls"

-- `TEMPLATES`, which has one engine
pub record TemplateEngine : Type 0 where
  pub backend : String
  pub dirs : List String
  pub app_dirs : Bool
  pub context_processors : List String

abbrev pub templates : List TemplateEngine
templates =
    record {
      backend = "django.template.backends.django.DjangoTemplates";
      dirs = [];
      app_dirs = true;
      context_processors =
          "django.template.context_processors.request"
          ∷ "django.contrib.auth.context_processors.auth"
          ∷ "django.contrib.messages.context_processors.messages" ∷ [];
    }
    ∷ []

abbrev pub disable_server_side_cursors : Bool
disable_server_side_cursors = true

abbrev pub auth_password_validators : List String
auth_password_validators =
    "django.contrib.auth.password_validation.UserAttributeSimilarityValidator"
    ∷ "django.contrib.auth.password_validation.MinimumLengthValidator"
    ∷ "django.contrib.auth.password_validation.CommonPasswordValidator"
    ∷ "django.contrib.auth.password_validation.NumericPasswordValidator" ∷ []

abbrev pub authentication_backends : List String
authentication_backends = "django.contrib.auth.backends.ModelBackend" ∷ []

abbrev pub secure_proxy_ssl_header : String × String
secure_proxy_ssl_header = ("HTTP_X_FORWARDED_PROTO", "https")

-- `NINJA_JWT`, the lifetimes in seconds
pub record Tokens : Type 0 where
  pub access_token_lifetime : ℕ
  pub refresh_token_lifetime : ℕ
  pub rotate_refresh_tokens : Bool
  pub blacklist_after_rotation : Bool

abbrev pub ninja_jwt : Tokens
ninja_jwt = record {
  access_token_lifetime = 60 * 60;
  refresh_token_lifetime = 24 * 60 * 60;
  rotate_refresh_tokens = true;
  blacklist_after_rotation = true;
}

abbrev pub wsgi_application : String
wsgi_application = "boutique.wsgi.application"

abbrev pub language_code : String
language_code = "en-us"

abbrev pub time_zone : String
time_zone = "UTC"

abbrev pub use_i18n : Bool
use_i18n = true

abbrev pub use_tz : Bool
use_tz = true

abbrev pub static_url : String
static_url = "static/"

abbrev pub auth_user_model : String
auth_user_model = "users.User"
