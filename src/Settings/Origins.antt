-- ===== src/Settings/Origins.antt =====
-- The origins that CORS allows: what the variable lists, or the frontend's where it lists none.
use Prim.Native.Char.{code}
use Prim.Native.String.{◌++◌, ◌∷◌}
use text.Mathlib.TextLemmas.{nil-append, cons-append}
use boutique_backend.Prelude.{
  ◌≡◌, refl, sym, ◌∙◌, ap, ◌↔◌, ◌⊎◌, inl, inr, String, Bool, true, false, not, List, [], ◌∷◌,
  select, map, is_empty, All, ◌==◌, ℕ_eq, string_eq, arith, if◌then◌else◌, Bool-cases,
}
use mathlib.Core.Bool.{false≢true}
use boutique_backend.Prelude.Members.{In, In-select}
use boutique_backend.Prelude.Counting.{In-map}
use boutique_backend.Prelude.Strings.{strip, split_char}
use boutique_backend.Settings.Environment.{Environ}
use boutique_backend.Settings.{stripped, or_frontend, cors_origins}

-- `",".join(origins)`
abbrev pub join_commas : List String → String
join_commas [] = ""
join_commas (List.◌∷◌ o []) = o
join_commas (List.◌∷◌ o (List.◌∷◌ p os)) = o ++ ("," ++ join_commas (List.◌∷◌ p os))

abbrev pub has_comma : String → Bool
has_comma String.[] = false
has_comma (String.◌∷◌ c s) = if code c == 44 then true else has_comma s

split-alone : (s : String) → has_comma s ≡ false → split_char 44 s ≡ List.◌∷◌ s []
split-alone String.[] h = refl
split-alone (String.◌∷◌ c s) h = elim (Bool-cases (code c == 44)) [
  | inl e ↦ absurd (ground arith)
  | inr e ↦ rw (e, split-alone s (rw e at h)) refl
]

split-append :
    (s t : String)
    → has_comma s ≡ false
    → split_char 44 (s ++ ("," ++ t)) ≡ List.◌∷◌ s (split_char 44 t)
split-append String.[] t h = rw (nil-append, cons-append, nil-append) refl
split-append (String.◌∷◌ c s) t h = elim (Bool-cases (code c == 44)) [
  | inl e ↦ absurd (ground arith)
  | inr e ↦
      ap (split_char 44) (cons-append c s ("," ++ t)) ∙ rw (e, split-append s t (rw e at h)) refl
]

-- An origin that the variable can carry as it is.
pub record IsClean (env : Environ) (o : String) : Type 0 where
  pub trimmed : strip env.is_space o ≡ o
  pub not_blank : (o == "") ≡ false
  pub no_comma : has_comma o ≡ false

split-join_commas :
    (env : Environ) (o : String) (os : List String)
    → IsClean env o
    → All (IsClean env) os
    → split_char 44 (join_commas (List.◌∷◌ o os)) ≡ List.◌∷◌ o os
split-join_commas env o [] h hs = split-alone o h.no_comma
split-join_commas env o (p ∷ ps) h hs =
    split-append o (join_commas (List.◌∷◌ p ps)) h.no_comma
    ∙ ap (List.◌∷◌ o) (split-join_commas env p ps hs.0 hs.1)

kept_as_is :
    (env : Environ) (os : List String)
    → All (IsClean env) os
    → select (λ o. not (o == "")) (map (strip env.is_space) os) ≡ os
kept_as_is env [] h = refl
kept_as_is env (o ∷ os) h = rw (h.0.trimmed, h.0.not_blank, kept_as_is env os h.1) refl

-- What is joined by commas is read back: a list of one origin or more, each without a comma, without
-- whitespace at its ends and not empty, is the list that CORS allows, whatever the frontend's URL is.
pub cors_origins-join_commas :
    (env : Environ) (frontend_url o : String) (os : List String)
    → IsClean env o
    → All (IsClean env) os
    → cors_origins env (join_commas (List.◌∷◌ o os)) frontend_url ≡ List.◌∷◌ o os
unfolding cors_origins
cors_origins-join_commas env frontend_url o os h hs =
    ap
      (λ (ps : List String).
        or_frontend frontend_url (select (λ r. not (r == "")) (map (strip env.is_space) ps)))
      (split-join_commas env o os h hs)
    ∙ ap (or_frontend frontend_url) (kept_as_is env (List.◌∷◌ o os) (h, hs))

-- No piece of the variable says an origin.
abbrev pub ListsNone : Environ → String → Type 0
ListsNone env origins =
    (piece : String) → In piece (split_char 44 origins) → (strip env.is_space piece == "") ≡ true

or_frontend_iff :
    (frontend_url x : String) (ps : List String)
    → In x (or_frontend frontend_url ps) ↔ (In x ps ⊎ ((is_empty ps ≡ true) × (x ≡ frontend_url)))
or_frontend_iff frontend_url x [] = (
  λ h. elim h [ inl e ↦ inr (refl, e) | inr i ↦ absurd i ],
  λ h. elim h [ inl i ↦ absurd i | inr (e, k) ↦ inl k ],
)
or_frontend_iff frontend_url x (p ∷ ps) =
    (λ h. inl h, λ h. elim h [ inl i ↦ i | inr (e, k) ↦ absurd (ground (arith, e)) ])

In-stripped :
    (env : Environ) (origins x : String)
    → In x (stripped env origins) ↔ (
        (piece : String) × (In piece (split_char 44 origins)
          × ((strip env.is_space piece ≡ x) × ((x == "") ≡ false))))
In-stripped env origins x = (
  λ h.
      let (i, said) =
        (In-select (λ o. not (o == "")) x (map (strip env.is_space) (split_char 44 origins))).0 h in
      let (piece, (row, e)) = (In-map (strip env.is_space) x (split_char 44 origins)).0 i in
      (piece, (row, (e, ground (arith, said)))),
  λ (piece, (row, (e, said))).
      (In-select (λ o. not (o == "")) x (map (strip env.is_space) (split_char 44 origins))).1 (
        (In-map (strip env.is_space) x (split_char 44 origins)).1 (piece, (row, e)),
        ground (arith, said),
      ),
)

empty_In : (ps : List String) (x : String) → is_empty ps ≡ true → In x ps → ⊥
empty_In [] x e i = i
empty_In (p ∷ ps) x e i = ground (arith, e)

empty_of_none : (ps : List String) → ((x : String) → In x ps → ⊥) → is_empty ps ≡ true
empty_of_none [] h = refl
empty_of_none (p ∷ ps) h = absurd (h p (inl refl))

stripped-empty_iff :
    (env : Environ) (origins : String)
    → (is_empty (stripped env origins) ≡ true) ↔ ListsNone env origins
stripped-empty_iff env origins = (
  λ e piece row. elim (Bool-cases (strip env.is_space piece == "")) [
    | inl blank ↦ blank
    | inr said ↦ absurd (
        empty_In (stripped env origins) (strip env.is_space piece) e
          ((In-stripped env origins (strip env.is_space piece)).1 (piece, (row, (refl, said)))))
  ],
  λ none_said. empty_of_none (stripped env origins) λ x i.
      let (piece, (row, (e, said))) = (In-stripped env origins x).0 i in
      false≢true (sym said ∙ (ap (λ (s : String). s == "") (sym e) ∙ none_said piece row)),
)

-- CORS allows an origin exactly if the variable lists it, between commas and but for whitespace at its
-- ends, and it is not empty, or if the variable lists none at all and it is the frontend's URL.
pub cors_origins_iff :
    (env : Environ) (origins frontend_url x : String)
    → In x (cors_origins env origins frontend_url) ↔ (
        ((piece : String) × (In piece (split_char 44 origins)
            × ((strip env.is_space piece ≡ x) × ((x == "") ≡ false))))
        ⊎ (ListsNone env origins × (x ≡ frontend_url)))
unfolding cors_origins
cors_origins_iff env origins frontend_url x =
    let (there, back) = or_frontend_iff frontend_url x (stripped env origins) in
    let (none_said, empty) = stripped-empty_iff env origins in
    (
      λ h. elim (there h) [
        | inl i ↦ inl ((In-stripped env origins x).0 i)
        | inr (e, k) ↦ inr (none_said e, k)
      ],
      λ h. back (elim h [
        | inl i ↦ inl ((In-stripped env origins x).1 i)
        | inr (e, k) ↦ inr (empty e, k)
      ]),
    )
