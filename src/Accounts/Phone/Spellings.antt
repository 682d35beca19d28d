-- ===== src/Accounts/Phone/Spellings.antt =====
-- Which spellings of a phone number are one number.
use Prim.Native.Char.{Char, code}
use Prim.Native.String.{◌++◌, ◌∷◌, count}
use text.Mathlib.TextLemmas.{nil-append, length-cons, cons-append, append-nil, append_assoc}
use boutique_backend.Prelude.{
  ℕ, zero, suc, ◌+◌, ◌≡◌, refl, sym, ap, ◌∙◌, inl, inr, String, Bool, true, ◌&&◌, not, none, some,
  ℕ_eq, string_eq, if◌then◌else◌, arith, Bool-cases, Option-cases,
}
use boutique_backend.Prelude.Strings.{after_prefix}
use boutique_backend.Prelude.Prefixes.{after_prefix-append}
use boutique_backend.Accounts.Phone.{
  Classes, is_separator, without_separators, ends_in_digits, subscriber, is_rwandan, international,
  clean_phone,
}

module _ (classes : Classes) where
  clean_append :
      (s t : String)
      → without_separators classes (s ++ t)
        ≡ without_separators classes s ++ without_separators classes t
  clean_append String.[] t =
      ap (without_separators classes) (nil-append t)
      ∙ sym (nil-append (without_separators classes t))
  clean_append (String.◌∷◌ c s) t =
      ap (without_separators classes) (cons-append c s t)
      ∙ (elim (Bool-cases (is_separator classes c)) [
        | inl e ↦ rw e (clean_append s t)
        | inr e ↦ rw e (
            ap (λ (r : String). c ∷ r) (clean_append s t)
            ∙ sym (cons-append c (without_separators classes s) (without_separators classes t)))
      ])

  clean_again :
      (s : String)
      → without_separators classes (without_separators classes s) ≡ without_separators classes s
  clean_again String.[] = refl
  clean_again (String.◌∷◌ c s) = elim (Bool-cases (is_separator classes c)) [
    | inl e ↦ rw e (clean_again s)
    | inr e ↦ rw e (rw e (ap (λ (r : String). c ∷ r) (clean_again s)))
  ]

  cleaned :
      (p s : String)
      → without_separators classes p ≡ p
      → without_separators classes (p ++ s) ≡ p ++ without_separators classes s
  cleaned p s h = clean_append p s ∙ ap (λ (r : String). r ++ without_separators classes s) h

  local_international : (t : String) → international ("07" ++ t) ≡ "+2507" ++ t
  local_international t =
      ground (
        arith,
        ap (λ (r : String). after_prefix r ("07" ++ t)) (append-nil "07"),
        after_prefix-append "07" "" t,
      )
      ∙ sym (append_assoc "+250" "7" t)

  plus_international : (t : String) → international ("+2507" ++ t) ≡ "+2507" ++ t
  plus_international t =
      ap international (cons-append "+" "2507" t) ∙ sym (cons-append "+" "2507" t)

  -- The two spellings of one number, local and international, are cleaned alike, wherever separators
  -- stand in what follows, as long as the characters of the country code are no white space.
  pub clean_phone-local :
      (s : String)
      → without_separators classes "+2507" ≡ "+2507"
      → without_separators classes "07" ≡ "07"
      → clean_phone classes ("07" ++ s) ≡ clean_phone classes ("+2507" ++ s)
  unfolding clean_phone
  clean_phone-local s plus zero_seven =
      ap (λ (c : String). if is_rwandan classes c then some c else none)
        (ap international (cleaned "07" s zero_seven)
          ∙ (local_international (without_separators classes s)
              ∙ sym (
                  ap international (cleaned "+2507" s plus)
                  ∙ plus_international (without_separators classes s))))

  abbrev is_clean : String → Bool
  is_clean String.[] = true
  is_clean (String.◌∷◌ c s) = let rest = is_clean s in not (is_separator classes c) && rest

  cleaned-is_clean : (v : String) → is_clean (without_separators classes v) ≡ true
  cleaned-is_clean String.[] = refl
  cleaned-is_clean (String.◌∷◌ c s) = elim (Bool-cases (is_separator classes c)) [
    | inl e ↦ rw e (cleaned-is_clean s)
    | inr e ↦ rw e (rw (e, cleaned-is_clean s) refl)
  ]

  clean_of_is_clean : (s : String) → is_clean s ≡ true → without_separators classes s ≡ s
  clean_of_is_clean String.[] h = refl
  clean_of_is_clean (String.◌∷◌ c s) h =
      ground (arith, ap (λ (r : String). c ∷ r), clean_of_is_clean s)

  rest-is_clean :
      (p s r : String) → after_prefix p s ≡ some r → is_clean s ≡ true → is_clean r ≡ true
  rest-is_clean String.[] s r h k = ground (arith, h, k)
  rest-is_clean (String.◌∷◌ c p) String.[] r h k = absurd (ground (arith, h))
  rest-is_clean (String.◌∷◌ c p) (String.◌∷◌ d s) r h k = ground (arith, rest-is_clean p s r)

  no_local : (p : String) → is_rwandan classes p ≡ true → international p ≡ p
  no_local String.[] h = refl
  no_local (String.◌∷◌ c s) h = ground arith

  international_clean :
      (t : String)
      → without_separators classes "+2507" ≡ "+2507"
      → is_clean t ≡ true
      → without_separators classes (international t) ≡ international t
  international_clean t plus h = elim (Option-cases (after_prefix "07" t)) [
    | inl absent ↦
        let same : international t ≡ t = ground (arith, absent) in
        ap (without_separators classes) same ∙ (clean_of_is_clean t h ∙ sym same)
    | inr (r, found) ↦
        let same : international t ≡ "+2507" ++ r =
          ground (arith, found) ∙ sym (append_assoc "+250" "7" r) in
        ap (without_separators classes) same
        ∙ (cleaned "+2507" r plus
            ∙ (ap (λ (x : String). "+2507" ++ x)
                  (clean_of_is_clean r (rest-is_clean "07" t r found h))
                ∙ sym same))
  ]

  count-digits :
      (n : ℕ) (s : String)
      → ((c : Char) → code c ≡ 10 → classes.is_space c ≡ true)
      → ends_in_digits classes n s ≡ true
      → is_clean s ≡ true
      → count s ≡ n
  count-digits zero String.[] line h k = refl
  count-digits zero (String.◌∷◌ c s) line h k = absurd (ground (arith, line c, h, k))
  count-digits (suc n) String.[] line h k = cc
  count-digits (suc n) (String.◌∷◌ c s) line h k =
      length-cons c s ∙ ap suc (count-digits n s line (ground (arith, h)) (ground (arith, k)))

  after_prefix-count : (p s r : String) → after_prefix p s ≡ some r → count s ≡ count p + count r
  after_prefix-count String.[] s r h =
      let same : s ≡ r = ground (arith, h) in omega (arith, ap count same)
  after_prefix-count (String.◌∷◌ c p) String.[] r h = absurd (ground (arith, h))
  after_prefix-count (String.◌∷◌ c p) (String.◌∷◌ d s) r h =
      let rest = after_prefix-count p s r (ground (arith, h)) in
      omega (arith, length-cons c p, length-cons d s, rest)

  count-subscriber :
      (s : String)
      → ((c : Char) → code c ≡ 10 → classes.is_space c ≡ true)
      → subscriber classes s ≡ true
      → is_clean s ≡ true
      → count s ≡ 8
  count-subscriber String.[] line h k = cc
  count-subscriber (String.◌∷◌ c s) line h k =
      length-cons c s ∙ ap suc (count-digits 7 s line (ground (arith, h)) (ground (arith, k)))

  count-rwandan :
      (p : String)
      → ((c : Char) → code c ≡ 10 → classes.is_space c ≡ true)
      → is_rwandan classes p ≡ true
      → is_clean p ≡ true
      → count p ≡ 13
  count-rwandan p line h k = elim (Option-cases (after_prefix "+2507" p)) [
    | inl absent ↦ absurd (ground (arith, absent, h))
    | inr (r, found) ↦ omega (
      arith,
      after_prefix-count "+2507" p r found,
      count-subscriber r line (ground (arith, found, h)) (rest-is_clean "+2507" p r found k),
    )
  ]

  accepted :
      (c p : String)
      → (if is_rwandan classes c then some c else none) ≡ some p
      → (c ≡ p) × (is_rwandan classes p ≡ true)
  accepted c p h = elim (Bool-cases (is_rwandan classes c)) [
    | inl e ↦
        let same : c ≡ p = ground (arith, e, h) in (same, ap (is_rwandan classes) (sym same) ∙ e)
    | inr e ↦ absurd (ground (arith, e, h))
  ]

  -- A number that was cleaned is cleaned to itself, and has thirteen characters, as many as its column,
  -- as long as a newline is white space and the characters of the country code are not.
  pub clean_phone_lem :
      (v p : String)
      → without_separators classes "+2507" ≡ "+2507"
      → ((c : Char) → code c ≡ 10 → classes.is_space c ≡ true)
      → clean_phone classes v ≡ some p
      → (clean_phone classes p ≡ some p) × (count p ≡ 13)
  unfolding clean_phone
  clean_phone_lem v p plus line h =
      let stored = international (without_separators classes v) in
      let (same, fits) = accepted stored p h in
      let kept : without_separators classes p ≡ p =
        ap (without_separators classes) (sym same)
        ∙ (international_clean (without_separators classes v) plus (cleaned-is_clean v) ∙ same) in
      (
        ap (λ (c : String). if is_rwandan classes c then some c else none)
              (ap international kept ∙ no_local p fits)
            ∙ ap (λ (b : Bool). if b then some p else none) fits,
        count-rwandan p line fits (ap is_clean (sym kept) ∙ cleaned-is_clean p),
      )
