-- ===== src/Catalog/Slugs.antt =====
-- src/apps/products/services.py: `_unique_slug`. Django's `slugify` is a parameter; the numbers of the
-- suffixes are spelled as Python's f-strings spell them.
pub mod Numerals
pub mod Search
use Prim.Native.Char.{Char}
use Prim.Native.Nat.{◌/◌, ◌%◌}
use Prim.Native.String.{◌++◌, ◌∷◌}
use boutique_backend.Prelude.{
  ℕ, zero, suc, ◌+◌, String, Bool, Option, none, some, ltb, ◌==◌, ℕ_eq, string_eq, if◌then◌else◌,
}

abbrev pub digit : ℕ → Char
digit d =
    if d == 0
    then "0"
    else if d == 1
    then "1"
    else if d == 2
    then "2"
    else if d == 3
    then "3"
    else if d == 4
    then "4"
    else if d == 5
    then "5"
    else if d == 6
    then "6"
    else if d == 7
    then "7"
    else if d == 8
    then "8"
    else "9"

-- The digits of `n`, last first, in front of `out`. A number has no more digits than its value, and
-- one.
unfoldable pub spell : ℕ → ℕ → String → String
spell zero n out = out
spell (suc fuel) n out =
    let rest = spell fuel (n / 10) (digit (n % 10) ∷ out) in
    if ltb n 10 then digit n ∷ out else rest

-- `str(n)`
unfoldable pub numeral : ℕ → String
unfolding spell
numeral n = spell (suc n) n ""

-- `slugify(name) or "item"`
abbrev pub base_slug : (String → String) → String → String
base_slug slugify name = if slugify name == "" then "item" else slugify name

-- The text that the loop tests in its k-th round: the base, then the base with -2, -3, …
unfoldable pub candidate : String → ℕ → String
unfolding numeral
candidate base zero = base
candidate base (suc k) = base ++ ("-" ++ numeral (k + 2))

-- `while taken(slug)`, from the k-th round on.
unfoldable pub search_slug : ℕ → (String → Bool) → String → ℕ → Option String
search_slug zero taken base k = none
search_slug (suc fuel) taken base k =
    let rest = search_slug fuel taken base (suc k) in
    if taken (candidate base k) then rest else some (candidate base k)

unfoldable pub unique_slug : (String → String) → ℕ → (String → Bool) → String → Option String
unfolding search_slug
unique_slug slugify fuel taken name = search_slug fuel taken (base_slug slugify name) 0
