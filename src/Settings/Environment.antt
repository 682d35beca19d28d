-- ===== src/Settings/Environment.antt =====
-- What src/boutique/settings.py reads of the environment: `environ.Env`, `urlparse` and `parse_qsl` are
-- libraries, fields of `Environ`.
use boutique_backend.Prelude.{ℕ, String, Bool, Option, none, some, List, ℕ_eq, string_eq}
use boutique_backend.Prelude.Int.{ℤ}
use Prim.Native.Char.{Char}

-- The exceptions that stop the module.
pub data Failure : Type 0 where
  improperly_configured value_error : Failure

pub data Loaded {ℓ} (A : Type ℓ) : Type ℓ where
  loaded : A → Loaded A
  failed : Failure → Loaded A

infixl 5 ◌>>=◌
abbrev pub ◌>>=◌ : {A B : Type 0} → Loaded A → (A → Loaded B) → Loaded B
◌>>=◌ (loaded a) f = f a
◌>>=◌ (failed e) f = failed e

-- `ParseResult`; `port` is `none` where reading it raises ValueError.
pub record Url : Type 0 where
  pub path : String
  pub username : Option String
  pub password : Option String
  pub hostname : Option String
  pub port : Option (Option ℕ)
  pub query : String

pub record Environ : Type 0 where
  -- the value of each variable that is set
  pub value : String → Option String
  -- the casts of `env.bool`, `env.list` and `env.int`, the last a ValueError where it has no value
  pub read_bool : String → Bool
  pub read_list : String → List String
  pub read_int : String → Option ℤ
  -- `urlparse`, a ValueError where it has no value, and `parse_qsl`
  pub urlparse : String → Option Url
  pub parse_qsl : String → List (String × String)
  -- `str.strip`'s whitespace
  pub is_space : Char → Bool

-- `env.str(name)`
abbrev pub env_str : Environ → String → Loaded String
env_str env name = elim (env.value name) [ none ↦ failed improperly_configured | some v ↦ loaded v ]

-- `env.str(name, default=d)`
abbrev pub str_or : Environ → String → String → String
str_or env d name = elim (env.value name) [ none ↦ d | some v ↦ v ]

abbrev pub env_bool : Environ → String → Loaded Bool
env_bool env name = env_str env name >>= λ v. loaded (env.read_bool v)

abbrev pub bool_or : Environ → Bool → String → Bool
bool_or env d name = elim (env.value name) [ none ↦ d | some v ↦ env.read_bool v ]

abbrev pub env_list : Environ → String → Loaded (List String)
env_list env name = env_str env name >>= λ v. loaded (env.read_list v)

abbrev pub int_of : Option ℤ → Loaded ℤ
int_of none = failed value_error
int_of (some n) = loaded n

abbrev pub int_or : Environ → ℤ → String → Loaded ℤ
int_or env d name = elim (env.value name) [ none ↦ loaded d | some v ↦ int_of (env.read_int v) ]
