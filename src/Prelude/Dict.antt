-- ===== src/Prelude/Dict.antt =====
-- A Python dict with text keys, in the order of insertion.
use Prim.Native.String.{String}
use mathlib.Core.List.{List, [], ◌∷◌}
use mathlib.Core.Option.{Option, none, some}
use package.boutique_backend.Prelude.Tests.{if◌then◌else◌, ◌==◌, string_eq}

abbrev pub Dict {ℓ} : Type ℓ → Type ℓ
Dict V = List (String × V)

module _ {ℓ} {V : Type ℓ} where
  -- `d.get(k)`
  abbrev pub lookup : String → Dict V → Option V
  lookup k [] = none
  lookup k ((j, v) ∷ d) = if j == k then some v else lookup k d

  -- `d[k] = v`: a key that is there keeps its place
  abbrev pub insert : String → V → Dict V → Dict V
  insert k v [] = (k, v) ∷ []
  insert k v ((j, w) ∷ d) = if j == k then (k, v) ∷ d else (j, w) ∷ insert k v d
