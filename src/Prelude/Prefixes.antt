-- ===== src/Prelude/Prefixes.antt =====
-- A prefix that is put in front of a text is found there.
use Prim.Native.String.{String, ◌++◌, ◌∷◌}
use text.Mathlib.TextLemmas.{nil-append, cons-append, append-nil}
use mathlib.Core.Path.{◌≡◌, ap, ◌∙◌}
use native.Mathlib.Omega.{arith}
use package.boutique_backend.Prelude.Tests.{ℕ_eq}
use package.boutique_backend.Prelude.Strings.{after_prefix, removeprefix}

pub after_prefix-append : (p q s : String) → after_prefix (p ++ q) (p ++ s) ≡ after_prefix q s
after_prefix-append String.[] q s =
    ap (after_prefix ("" ++ q)) (nil-append s)
    ∙ ap (λ (r : String). after_prefix r s) (nil-append q)
after_prefix-append (String.◌∷◌ c p) q s =
    ap (after_prefix ((c ∷ p) ++ q)) (cons-append c p s)
    ∙ ap (λ (r : String). after_prefix r (c ∷ (p ++ s))) (cons-append c p q)
    ∙ ground (arith, after_prefix-append p q s)

pub removeprefix-append : (p s : String) → removeprefix p (p ++ s) ≡ s
removeprefix-append p s =
    ground (
      arith,
      ap (λ (r : String). after_prefix r (p ++ s)) (append-nil p),
      after_prefix-append p "" s,
    )
