-- ===== src/Settings/Deployment.antt =====
-- When the settings load, and what they are with DEBUG on and off.
use boutique_backend.Prelude.{
  Bool-cases, ◌≡◌, refl, ◌↔◌, ◌⊎◌, inl, inr, true, false, none, some, string_eq, arith,
}
use boutique_backend.Settings.Environment.{loaded, Environ, env_str, env_bool, env_list}
use boutique_backend.Settings.{
  Settings, database_of, storages_of, email_of, load, local_hosts, local_origins,
}
use boutique_backend.Settings.Loading.{
  IsConfigured, Loads, bind-Loads, bind_value, Loads-bind, str_set, str-Loads, Loads-str,
  bool-Loads, Loads-bool, list-Loads, Loads-list, database-Loads, Loads-database, storages-Loads,
  email-Loads, Loads-email,
}

module _ (env : Environ) where
  configured : Loads (load env) → IsConfigured env
  unfolding load
  configured h0 =
      let (secret_key, h1) = bind-Loads (env_str env "DJANGO_SECRET_KEY") _ h0 in
      let (debug, h2) = bind-Loads (env_bool env "DJANGO_DEBUG") _ h1 in
      let (frontend_url, h3) = bind-Loads (env_str env "FRONTEND_URL") _ h2 in
      let (allowed_hosts, h4) = bind-Loads (env_list env "DJANGO_ALLOWED_HOSTS") _ h3 in
      let (csrf, h5) = bind-Loads (env_list env "DJANGO_CSRF_TRUSTED_ORIGINS") _ h4 in
      let (append_slash, h6) = bind-Loads (env_bool env "DJANGO_APPEND_SLASH") _ h5 in
      let (url, h7) = bind-Loads (env_str env "DATABASE_URL") _ h6 in
      let (database, h8) = bind-Loads (database_of env url.0) _ h7 in
      let (storages, h9) = bind-Loads (storages_of env) _ h8 in
      let (email, _) = bind-Loads (email_of env) _ h9 in
      let (port, timeout) = email-Loads env email in
      record {
        secret_key = str-Loads env "DJANGO_SECRET_KEY" secret_key;
        debug = bool-Loads env "DJANGO_DEBUG" debug;
        frontend_url = str-Loads env "FRONTEND_URL" frontend_url;
        allowed_hosts = list-Loads env "DJANGO_ALLOWED_HOSTS" allowed_hosts;
        csrf_trusted_origins = list-Loads env "DJANGO_CSRF_TRUSTED_ORIGINS" csrf;
        append_slash = bool-Loads env "DJANGO_APPEND_SLASH" append_slash;
        database =
            (url.0, (str_set env "DATABASE_URL" url.0 url.1, database-Loads env url.0 database));
        storages = storages-Loads env storages;
        email_port = port;
        email_timeout = timeout;
      }

  loads : IsConfigured env → Loads (load env)
  unfolding load
  loads c =
      let (url, (set, address)) = c.database in
      let (database, parsed) = Loads-database env url address in
      let (email, sent) = Loads-email env c.email_port c.email_timeout in
      Loads-bind (env_str env "DJANGO_SECRET_KEY") _ _
        (Loads-str env "DJANGO_SECRET_KEY" c.secret_key.0 c.secret_key.1)
        (Loads-bind (env_bool env "DJANGO_DEBUG") _ _
          (Loads-bool env "DJANGO_DEBUG" c.debug.0 c.debug.1)
          (Loads-bind (env_str env "FRONTEND_URL") _ _
            (Loads-str env "FRONTEND_URL" c.frontend_url.0 c.frontend_url.1)
            (Loads-bind (env_list env "DJANGO_ALLOWED_HOSTS") _ _
              (Loads-list env "DJANGO_ALLOWED_HOSTS" c.allowed_hosts.0 c.allowed_hosts.1)
              (Loads-bind (env_list env "DJANGO_CSRF_TRUSTED_ORIGINS") _ _
                (Loads-list env "DJANGO_CSRF_TRUSTED_ORIGINS" c.csrf_trusted_origins.0
                  c.csrf_trusted_origins.1)
                (Loads-bind (env_bool env "DJANGO_APPEND_SLASH") _ _
                  (Loads-bool env "DJANGO_APPEND_SLASH" c.append_slash.0 c.append_slash.1)
                  (Loads-bind (env_str env "DATABASE_URL") _ url
                    (Loads-str env "DATABASE_URL" url set)
                    (Loads-bind (database_of env url) _ database parsed (
                      Loads-bind (storages_of env) _ c.storages.0 (ground (arith, c.storages.1))
                        (Loads-bind (email_of env) _ email sent (_, refl))))))))))

  -- The settings module loads exactly if the seven variables without a default are set, the database's
  -- address and its port parse, the photo storage is configured, and the two numbers of the mail are
  -- integers where they are set.
  pub load_iff : ((s : Settings) × (load env ≡ loaded s)) ↔ IsConfigured env
  load_iff = (configured, loads)

-- The settings that loaded either are those of a development machine, with the local hosts and origins
-- alone and no hardening, or they name the hosts of the environment and every protection is on: the two
-- never mix, and `DEBUG` says which.
pub load_lem :
    (env : Environ) (s : Settings)
    → load env ≡ loaded s
    → ((s.debug ≡ true)
        × ((s.allowed_hosts ≡ local_hosts)
            × ((s.csrf_trusted_origins ≡ local_origins) × (s.hardening ≡ none))))
      ⊎ ((s.debug ≡ false)
          × ((loaded s.allowed_hosts ≡ env_list env "DJANGO_ALLOWED_HOSTS")
              × ((loaded s.csrf_trusted_origins ≡ env_list env "DJANGO_CSRF_TRUSTED_ORIGINS")
                  × (s.hardening
                      ≡ some (record {
                        secure_ssl_redirect = true;
                        session_cookie_secure = true;
                        csrf_cookie_secure = true;
                        secure_hsts_seconds = 3600;
                      })))))
unfolding load
load_lem env s h0 =
    let (secret_key, (e1, h1)) = bind_value (env_str env "DJANGO_SECRET_KEY") _ s h0 in
    let (debug, (e2, h2)) = bind_value (env_bool env "DJANGO_DEBUG") _ s h1 in
    let (frontend_url, (e3, h3)) = bind_value (env_str env "FRONTEND_URL") _ s h2 in
    let (allowed_hosts, (e4, h4)) = bind_value (env_list env "DJANGO_ALLOWED_HOSTS") _ s h3 in
    let (csrf, (e5, h5)) = bind_value (env_list env "DJANGO_CSRF_TRUSTED_ORIGINS") _ s h4 in
    let (append_slash, (e6, h6)) = bind_value (env_bool env "DJANGO_APPEND_SLASH") _ s h5 in
    let (url, (e7, h7)) = bind_value (env_str env "DATABASE_URL") _ s h6 in
    let (database, (e8, h8)) = bind_value (database_of env url) _ s h7 in
    let (storages, (e9, h9)) = bind_value (storages_of env) _ s h8 in
    let (email, (e10, h10)) = bind_value (email_of env) _ s h9 in
    elim (Bool-cases debug) [
      | inl on ↦ inl (
        ground (arith, h10, on),
        (ground (arith, h10, on), (ground (arith, h10, on), ground (arith, h10, on))),
      )
      | inr off ↦ inr (
        ground (arith, h10, off),
        (ground (arith, h10, off, e4), (ground (arith, h10, off, e5), ground (arith, h10, off))),
      )
    ]
