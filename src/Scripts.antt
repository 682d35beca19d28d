-- ===== src/Scripts.antt =====
-- scripts/: the checks that the repository runs on its own sources. They read files and exit with a
-- code; the parsers and the file system are parameters.
pub mod TaskNames
pub mod Workflows
mod Tests
use Prim.Native.String.{◌++◌ as text_append}
use boutique_backend.Prelude.{
  ℕ, ◌≡◌, ◌↔◌, refl, String, Option, none, some, List, [], ◌∷◌, ◌++◌, arith,
}

infixr 5 ◌<+>◌
abbrev pub ◌<+>◌ : String → String → String
s <+> t = text_append s t

-- Two lists of problems, where an exception in the search for either ends the program.
abbrev pub append_both : Option (List String) → Option (List String) → Option (List String)
append_both none others = none
append_both (some found) none = none
append_both (some found) (some others) = some (found ++ others)

-- The exit code of a script, if it ends with one.
abbrev pub exit_code : Option (ℕ × List String) → Option ℕ
exit_code none = none
exit_code (some (code, lines)) = some code

pub append-eq-nil : {A : Type 0} (xs ys : List A) → (xs ++ ys ≡ []) ↔ ((xs ≡ []) × (ys ≡ []))
append-eq-nil [] ys = (λ h. (refl, h), λ h. h.1)
append-eq-nil (x ∷ xs) ys = (λ h. absurd (ground (arith, h)), λ h. absurd (ground (arith, h.0)))

pub append_both_iff :
    (found others : Option (List String))
    → (append_both found others ≡ some []) ↔ ((found ≡ some []) × (others ≡ some []))
append_both_iff none others = (λ h. absurd (ground (arith, h)), λ h. h.0)
append_both_iff (some f) none = (λ h. absurd (ground (arith, h)), λ h. h.1)
append_both_iff (some f) (some o) = ground (arith, append-eq-nil f o)
