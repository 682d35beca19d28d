-- ===== src/Settings/Loading.antt =====
-- Which reads of the environment fail, step by step.
use boutique_backend.Prelude.{
  Option-cases, ℕ, ◌≡◌, refl, sym, ◌∙◌, ap, inl, inr, String, Option, none, some, string_eq, arith,
}
use boutique_backend.Prelude.Dict.{Dict}
use boutique_backend.Prelude.Int.{ℤ, pos}
use boutique_backend.Media.{Storage, build_storages}
use boutique_backend.Settings.Environment.{
  Loaded, loaded, failed, ◌>>=◌, Url, Environ, env_str, env_bool, env_list, int_of, int_or,
}
use boutique_backend.Settings.{database_of, url_of, port_of, port_or, storages_of, email_of}

-- A step that does not fail.
abbrev pub Loads : {A : Type 0} → Loaded A → Type 0
Loads {A} m = (a : A) × (m ≡ loaded a)

module _ {A B : Type 0} where
  pub bind-Loads :
      (m : Loaded A) (f : A → Loaded B) → Loads (m >>= f) → (l : Loads m) × Loads (f l.0)
  bind-Loads (loaded a) f h = ((a, refl), h)
  bind-Loads (failed e) f (b, h) = absurd (ground arith)

  pub bind_value :
      (m : Loaded A) (f : A → Loaded B) (b : B)
      → m >>= f ≡ loaded b
      → (a : A) × ((m ≡ loaded a) × (f a ≡ loaded b))
  bind_value (loaded a) f b h = (a, (refl, h))
  bind_value (failed e) f b h = absurd (ground arith)

  pub Loads-bind :
      (m : Loaded A) (f : A → Loaded B) (a : A) → m ≡ loaded a → Loads (f a) → Loads (m >>= f)
  Loads-bind (loaded c) f a e h = let same : a ≡ c = ground (arith, e) in rw (← same) h
  Loads-bind (failed d) f a e h = absurd (ground arith)

-- The variable is set.
abbrev pub IsGiven : Environ → String → Type 0
IsGiven env name = (v : String) × (env.value name ≡ some v)

-- The variable is not set, or it is an integer.
abbrev pub IsInteger : Environ → String → Type 0
IsInteger env name = (v : String) → env.value name ≡ some v → (n : ℤ) × (env.read_int v ≡ some n)

-- The variable is the address of a database: it parses, and so does its port.
abbrev pub IsDatabase : Environ → String → Type 0
IsDatabase env name =
    (v : String) × ((env.value name ≡ some v)
      × ((u : Url) × ((env.urlparse v ≡ some u) × ((port : Option ℕ) × (u.port ≡ some port)))))

-- What the settings need of the environment.
pub record IsConfigured (env : Environ) : Type 0 where
  pub secret_key : IsGiven env "DJANGO_SECRET_KEY"
  pub debug : IsGiven env "DJANGO_DEBUG"
  pub frontend_url : IsGiven env "FRONTEND_URL"
  pub allowed_hosts : IsGiven env "DJANGO_ALLOWED_HOSTS"
  pub csrf_trusted_origins : IsGiven env "DJANGO_CSRF_TRUSTED_ORIGINS"
  pub append_slash : IsGiven env "DJANGO_APPEND_SLASH"
  pub database : IsDatabase env "DATABASE_URL"
  pub storages : (s : Dict Storage) × (build_storages env.value ≡ some s)
  pub email_port : IsInteger env "EMAIL_PORT"
  pub email_timeout : IsInteger env "EMAIL_TIMEOUT"

module _ (env : Environ) where
  pub str_set : (name v : String) → env_str env name ≡ loaded v → env.value name ≡ some v
  str_set name v h = ground (arith, h)

  pub str-Loads : (name : String) → Loads (env_str env name) → IsGiven env name
  str-Loads name (v, h) = (v, ground (arith, h))

  pub Loads-str : (name v : String) → env.value name ≡ some v → env_str env name ≡ loaded v
  Loads-str name v h = ground (arith, h)

  pub bool-Loads : (name : String) → Loads (env_bool env name) → IsGiven env name
  bool-Loads name h =
      str-Loads name (bind-Loads (env_str env name) (λ v. loaded (env.read_bool v)) h).0

  pub Loads-bool :
      (name v : String) → env.value name ≡ some v → env_bool env name ≡ loaded (env.read_bool v)
  Loads-bool name v h = ground (arith, h)

  pub list-Loads : (name : String) → Loads (env_list env name) → IsGiven env name
  list-Loads name h =
      str-Loads name (bind-Loads (env_str env name) (λ v. loaded (env.read_list v)) h).0

  pub Loads-list :
      (name v : String) → env.value name ≡ some v → env_list env name ≡ loaded (env.read_list v)
  Loads-list name v h = ground (arith, h)

  int-Loads : (d : ℤ) (name : String) → Loads (int_or env d name) → IsInteger env name
  int-Loads d name (n, h) v set = (n, read (env.read_int v) (ap int_or_value (sym set) ∙ h))
    where
      int_or_value : Option String → Loaded ℤ
      int_or_value found = elim found [ none ↦ loaded d | some v ↦ int_of (env.read_int v) ]

      read : (r : Option ℤ) → int_of r ≡ loaded n → r ≡ some n
      read none e = absurd (ground arith)
      read (some m) e = ground (arith, e)

  Loads-int : (d : ℤ) (name : String) → IsInteger env name → Loads (int_or env d name)
  Loads-int d name h = elim (Option-cases (env.value name)) [
    | inl unset ↦ (d, ground (arith, unset))
    | inr (v, set) ↦ let (n, read) = h v set in (n, ground (arith, set, read))
  ]

  -- The address of the database parses.
  abbrev IsAddress : String → Type 0
  IsAddress v = (u : Url) × ((env.urlparse v ≡ some u) × ((port : Option ℕ) × (u.port ≡ some port)))

  url-Loads :
      (r : Option Url) → Loads (url_of r) → (u : Url) × ((url_of r ≡ loaded u) × (r ≡ some u))
  url-Loads none (u, h) = absurd (ground arith)
  url-Loads (some u) (v, h) = (u, (refl, refl))

  port-Loads : (r : Option (Option ℕ)) → Loads (port_of r) → (port : Option ℕ) × (r ≡ some port)
  port-Loads none (u, h) = absurd (ground arith)
  port-Loads (some port) (v, h) = (port, refl)

  pub database-Loads : (v : String) → Loads (database_of env v) → IsAddress v
  unfolding database_of
  database-Loads v h =
      let (l, rest) = bind-Loads (url_of (env.urlparse v)) _ h in
      let (u, (parsed, e)) = url-Loads (env.urlparse v) l in
      let same : u ≡ l.0 = ground (arith, parsed, l.1) in
      let (port, _) = bind-Loads (port_of l.0.port) _ rest in
      let (number, k) = port-Loads l.0.port port in (l.0, (e ∙ ap some same, (number, k)))

  pub Loads-database : (v : String) → IsAddress v → Loads (database_of env v)
  unfolding database_of
  Loads-database v (u, (parsed, (port, e))) =
      Loads-bind (url_of (env.urlparse v)) _ u (ap url_of parsed)
        (Loads-bind (port_of u.port) _ (port_or port) (ap port_of e) (_, refl))

  pub storages-Loads :
      Loads (storages_of env) → (s : Dict Storage) × (build_storages env.value ≡ some s)
  storages-Loads (s, h) = (s, ground (arith, h))

  pub email-Loads :
      Loads (email_of env) → IsInteger env "EMAIL_PORT" × IsInteger env "EMAIL_TIMEOUT"
  unfolding email_of
  email-Loads h =
      let (port, rest) = bind-Loads (int_or env (pos 587) "EMAIL_PORT") _ h in
      let (timeout, _) = bind-Loads (int_or env (pos 10) "EMAIL_TIMEOUT") _ rest in
      (int-Loads (pos 587) "EMAIL_PORT" port, int-Loads (pos 10) "EMAIL_TIMEOUT" timeout)

  pub Loads-email :
      IsInteger env "EMAIL_PORT" → IsInteger env "EMAIL_TIMEOUT" → Loads (email_of env)
  unfolding email_of
  Loads-email port timeout =
      let (p, set) = Loads-int (pos 587) "EMAIL_PORT" port in
      let (t, set_too) = Loads-int (pos 10) "EMAIL_TIMEOUT" timeout in
      Loads-bind (int_or env (pos 587) "EMAIL_PORT") _ p set
        (Loads-bind (int_or env (pos 10) "EMAIL_TIMEOUT") _ t set_too (_, refl))
