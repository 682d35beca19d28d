-- ===== src/Accounts/Phone.antt =====
-- src/apps/users/schemas.py: `_clean_phone` and the body of a registration. What Python's `re` takes
-- for white space and for a digit, and pydantic's reading of an address, are parameters.
pub mod Spellings
pub mod Stored
mod Tests
use Prim.Native.Char.{Char, code}
use Prim.Native.String.{◌++◌, ◌∷◌}
use boutique_backend.Prelude.{
  ℕ, zero, suc, String, Bool, true, false, ◌&&◌, ◌||◌, Option, none, some, ◌==◌, ℕ_eq, string_eq,
  if◌then◌else◌,
}
use boutique_backend.Prelude.Strings.{after_prefix}

-- `\s` and `\d`
pub record Classes : Type 0 where
  pub is_space : Char → Bool
  pub is_digit : Char → Bool

-- `[\s\-\(\)]`
abbrev pub is_separator : Classes → Char → Bool
is_separator classes c = classes.is_space c || (code c == 45 || (code c == 40 || code c == 41))

-- `re.sub(r"[\s\-\(\)]", "", v)`
abbrev pub without_separators : Classes → String → String
without_separators classes String.[] = ""
without_separators classes (String.◌∷◌ c s) =
    let rest = without_separators classes s in if is_separator classes c then rest else c ∷ rest

-- `\d{n}$`: `$` also stands before a newline at the end
abbrev pub ends_in_digits : Classes → ℕ → String → Bool
ends_in_digits classes zero String.[] = true
ends_in_digits classes zero (String.◌∷◌ c s) = code c == 10 && s == ""
ends_in_digits classes (suc n) String.[] = false
ends_in_digits classes (suc n) (String.◌∷◌ c s) =
    let rest = ends_in_digits classes n s in classes.is_digit c && rest

-- `[2389]`
abbrev pub is_operator : Char → Bool
is_operator c = code c == 50 || (code c == 51 || (code c == 56 || code c == 57))

abbrev pub subscriber : Classes → String → Bool
subscriber classes String.[] = false
subscriber classes (String.◌∷◌ c s) = is_operator c && ends_in_digits classes 7 s

-- `re.match(r"^\+2507[2389]\d{7}$", cleaned)`
abbrev pub is_rwandan : Classes → String → Bool
is_rwandan classes s = elim (after_prefix "+2507" s) [
  | none ↦ false
  | some rest ↦ subscriber classes rest
]

-- `if cleaned.startswith("07"): cleaned = "+250" + cleaned[1:]`
abbrev pub international : String → String
international cleaned = elim (after_prefix "07" cleaned) [
  | none ↦ cleaned
  | some rest ↦ "+250" ++ ("7" ++ rest)
]

-- `_clean_phone`; `none` is the ValueError, which validation answers with 422.
unfoldable pub clean_phone : Classes → String → Option String
clean_phone classes v =
    let cleaned = international (without_separators classes v) in
    if is_rwandan classes cleaned then some cleaned else none

-- `RegisterSchema`
pub record Registration : Type 0 where
  pub name : String
  pub email : String
  pub phone_number : String
  pub password : String

unfoldable pub read_registration :
    (String → Option String) → Classes → Registration → Option Registration
read_registration read_email classes raw = elim (read_email raw.email) [
  | none ↦ none
  | some email ↦ elim (clean_phone classes raw.phone_number) [
    | none ↦ none
    | some phone ↦ some (record raw { email = email; phone_number = phone })
  ]
]
