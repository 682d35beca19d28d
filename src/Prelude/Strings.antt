-- ===== src/Prelude/Strings.antt =====
-- Python's operations on texts, character by character.
use Prim.Native.Char.{Char, code}
use Prim.Native.Nat.{ℕ}
use Prim.Native.String.{String, ◌∷◌}
use mathlib.Core.Bool.{Bool, ◌&&◌}
use mathlib.Core.List.{List, []}
use mathlib.Core.Option.{Option, none, some}
use package.boutique_backend.Prelude.Tests.{◌==◌, ℕ_eq, string_eq, if◌then◌else◌}

-- `s.replace(c, d)` for two characters, the first by its code
abbrev pub replace_char : ℕ → Char → String → String
replace_char c d String.[] = ""
replace_char c d (String.◌∷◌ x s) =
    let rest = replace_char c d s in if code x == c then d ∷ rest else x ∷ rest

-- `s.rstrip(…)`: without the characters at its end that fit
abbrev pub rstrip : (Char → Bool) → String → String
rstrip p String.[] = ""
rstrip p (String.◌∷◌ x s) = let rest = rstrip p s in if p x && rest == "" then "" else x ∷ rest

-- `s.rstrip(c)` for a character, by its code
abbrev pub rstrip_char : ℕ → String → String
rstrip_char c = rstrip (λ x. code x == c)

abbrev pub lstrip : (Char → Bool) → String → String
lstrip p String.[] = ""
lstrip p (String.◌∷◌ x s) = let rest = lstrip p s in if p x then rest else x ∷ s

abbrev pub strip : (Char → Bool) → String → String
strip p s = rstrip p (lstrip p s)

abbrev cons_first : Char → List String → List String
cons_first x [] = List.◌∷◌ (x ∷ "") []
cons_first x (List.◌∷◌ p ps) = List.◌∷◌ (x ∷ p) ps

-- `s.split(c)` for a character, by its code
abbrev pub split_char : ℕ → String → List String
split_char c String.[] = List.◌∷◌ "" []
split_char c (String.◌∷◌ x s) =
    let rest = split_char c s in if code x == c then List.◌∷◌ "" rest else cons_first x rest

-- What follows a prefix, if the text has it.
abbrev pub after_prefix : String → String → Option String
after_prefix String.[] s = some s
after_prefix (String.◌∷◌ c p) String.[] = none
after_prefix (String.◌∷◌ c p) (String.◌∷◌ d s) =
    let rest = after_prefix p s in if code c == code d then rest else none

-- `s.removeprefix(p)`
abbrev pub removeprefix : String → String → String
removeprefix p s = elim (after_prefix p s) [ none ↦ s | some rest ↦ rest ]
