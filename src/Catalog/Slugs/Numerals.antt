-- ===== src/Catalog/Slugs/Numerals.antt =====
-- Two numbers are never spelled alike, so the candidates of the search differ.
use Prim.Native.Char.{Char, code}
use Prim.Native.Nat.{◌/◌, ◌%◌}
use Prim.Native.String.{◌++◌, ◌∷◌, count}
use text.Mathlib.TextLemmas.{append_cancel_left, length-append}
use boutique_backend.Prelude.{
  ℕ, zero, suc, ◌+◌, ◌-◌, ◌*◌, ◌<◌, ◌≡◌, ◌≢◌, refl, sym, ap, ◌∙◌, inl, inr, String, ltb, ℕ_eq,
  arith, Bool-cases, ltb→lt,
}
use boutique_backend.Catalog.Slugs.{digit, spell, numeral, candidate}

abbrev digit_value : Char → ℕ
digit_value c = code c - 48

digit_value-digit : (d : ℕ) → d < 10 → digit_value (digit d) ≡ d
digit_value-digit zero h = refl
digit_value-digit (suc zero) h = refl
digit_value-digit (suc (suc zero)) h = refl
digit_value-digit (suc (suc (suc zero))) h = refl
digit_value-digit (suc (suc (suc (suc zero)))) h = refl
digit_value-digit (suc (suc (suc (suc (suc zero))))) h = refl
digit_value-digit (suc (suc (suc (suc (suc (suc zero)))))) h = refl
digit_value-digit (suc (suc (suc (suc (suc (suc (suc zero))))))) h = refl
digit_value-digit (suc (suc (suc (suc (suc (suc (suc (suc zero)))))))) h = refl
digit_value-digit (suc (suc (suc (suc (suc (suc (suc (suc (suc zero))))))))) h = refl
digit_value-digit (suc (suc (suc (suc (suc (suc (suc (suc (suc (suc d)))))))))) h =
    absurd (omega arith)

-- The number that the digits spell behind `n`.
read : ℕ → String → ℕ
read n String.[] = n
read n (String.◌∷◌ c s) = read (n * 10 + digit_value c) s

read-spell : (fuel n : ℕ) (out : String) → n < fuel → read 0 (spell fuel n out) ≡ read n out
unfolding read spell
read-spell zero n out h = absurd (omega arith)
read-spell (suc fuel) n out h = elim (Bool-cases (ltb n 10)) [
  | inl last ↦ rw last (
      ap (λ k. read k out)
        (let e : 0 * 10 + digit_value (digit n) ≡ n =
            omega (arith, digit_value-digit n (ltb→lt n 10 last)) in
          e))
  | inr more ↦ rw more (
      read-spell fuel (n / 10) (digit (n % 10) ∷ out) (ground arith)
      ∙ ap (λ k. read k out)
          (let e : n / 10 * 10 + digit_value (digit (n % 10)) ≡ n =
              omega (arith, digit_value-digit (n % 10) (omega arith)) in
            e))
]

numeral_inj : (m n : ℕ) → numeral m ≡ numeral n → m ≡ n
unfolding numeral read
numeral_inj m n h =
    sym (read-spell (suc m) m "" (omega arith))
    ∙ ap (read 0) h
    ∙ read-spell (suc n) n "" (omega arith)

suffix-ne-nil : (base s : String) → base ++ ("-" ++ s) ≢ base
suffix-ne-nil base s h =
    let e : count (base ++ ("-" ++ s)) ≡ count base = ap count h in
    absurd (omega (arith, length-append base ("-" ++ s), length-append "-" s))

-- The rounds of the search test different texts.
pub candidate_inj : (base : String) (j k : ℕ) → candidate base j ≡ candidate base k → j ≡ k
unfolding candidate
candidate_inj base zero zero h = refl
candidate_inj base zero (suc k) h = absurd (suffix-ne-nil base (numeral (k + 2)) (sym h))
candidate_inj base (suc j) zero h = absurd (suffix-ne-nil base (numeral (j + 2)) h)
candidate_inj base (suc j) (suc k) h = omega (
  arith,
  numeral_inj (j + 2) (k + 2) (
      append_cancel_left "-" (numeral (j + 2)) (numeral (k + 2))
        (append_cancel_left base ("-" ++ numeral (j + 2)) ("-" ++ numeral (k + 2)) h)),
)
