-- ===== src/Prelude/Tests.antt =====
-- Boolean tests, the conditional, and equality as an interface with instances for numbers and texts.
use Prim.Native.Nat.{ℕ, ◌≤◌, ◌<◌, compare, Ordering}
use Prim.Native.String.{String}
use mathlib.Core.Path.{◌≡◌, refl}
use mathlib.Core.Logic.{◌↔◌, ◌⊎◌, inl, inr}
use mathlib.Core.Bool.{Bool, true, false}
use mathlib.Core.Option.{Option, none, some}
use native.Mathlib.Omega.{arith}
use text.Mathlib.Text.{◌==◌ as text_eq}
use text.Mathlib.TextEquality.{eq_iff}

abbrev pub ltb : ℕ → ℕ → Bool
ltb a b = elim (compare a b) [ Ordering.lt ↦ true | _ ↦ false ]

abbrev pub leb : ℕ → ℕ → Bool
leb a b = elim (compare a b) [ Ordering.gt ↦ false | _ ↦ true ]

abbrev pub nat_eq : ℕ → ℕ → Bool
nat_eq a b = elim (compare a b) [ Ordering.eq ↦ true | _ ↦ false ]

infix 1 if◌then◌else◌
abbrev pub if◌then◌else◌ {ℓ} : {A : Type ℓ} → Bool → A → A → A
if true then x else y = x
if false then x else y = y

pub ltb→lt : (a b : ℕ) → ltb a b ≡ true → a < b
ltb→lt a b h = ground arith

pub leb→le : (a b : ℕ) → leb a b ≡ true → a ≤ b
leb→le a b h = ground arith

pub nat_eq_iff : (a b : ℕ) → (nat_eq a b ≡ true) ↔ (a ≡ b)
nat_eq_iff a b = ground arith

-- A Boolean equality that decides the paths of its type.
pub record Eq (A : Type 0) : Type 0 where
  pub beq : A → A → Bool
  pub beq_iff : (a b : A) → (beq a b ≡ true) ↔ (a ≡ b)

infix 50 ◌==◌
abbrev pub ◌==◌ : {A : Type 0} ⦃e : Eq A⦄ → A → A → Bool
◌==◌ ⦃e⦄ = e.beq

instance abbrev pub ℕ_eq : Eq ℕ
ℕ_eq = record { beq = nat_eq; beq_iff = nat_eq_iff }

instance abbrev pub string_eq : Eq String
string_eq = record { beq = text_eq; beq_iff = eq_iff }

pub beq_refl : {A : Type 0} ⦃e : Eq A⦄ (a : A) → (a == a) ≡ true
beq_refl ⦃e⦄ a = (e.beq_iff a a).1 refl

pub Bool-cases : (b : Bool) → (b ≡ true) ⊎ (b ≡ false)
Bool-cases true = inl refl
Bool-cases false = inr refl

pub Option-cases {ℓ} : {A : Type ℓ} (o : Option A) → (o ≡ none) ⊎ ((a : A) × (o ≡ some a))
Option-cases none = inl refl
Option-cases (some a) = inr (a, refl)
