-- ===== src/Scripts/TaskNames/Decorators.antt =====
-- scripts/check_task_names.py: which decorators register a task, and which of them carry a name.
use boutique_backend.Prelude.{
  ◌≡◌, ◌↔◌, ◌⊎◌, refl, sym, ap, subst, ◌∙◌, inl, inr, String, Bool, true, false, Option, none, some,
  List, exists, ◌==◌, string_eq, arith, eq_iff, beq_refl, [], ◌∷◌, Bool-cases,
}
use boutique_backend.Prelude.Members.{In}
use boutique_backend.Prelude.Counting.{exists_iff}
use boutique_backend.Scripts.TaskNames.{
  Expr, contains, task_decorators, trailing, registers_task, is_name_keyword, has_explicit_name,
}

-- The expression is one of the registering names, or an attribute of that name.
abbrev pub IsTaskName : Expr → Type 0
IsTaskName e =
    (t : String) × (In t task_decorators
      × ((e ≡ Expr.name t) ⊎ ((v : Expr) × (e ≡ Expr.attribute v t))))

-- A decorator registers a task by such an expression or by a call of one.
abbrev pub IsTask : Expr → Type 0
IsTask d =
    IsTaskName d
    ⊎ ((func : Expr) × ((keywords : List (Option String)) × ((d ≡ Expr.call func keywords)
            × IsTaskName func)))

contains_iff : (names : List String) (s : String) → (contains names s ≡ true) ↔ In s names
contains_iff names s =
    let found = exists_iff (λ (n : String). n == s) names in
    (
      λ h. let (n, (i, e)) = found.0 h in subst (λ m. In m names) ((eq_iff n s).0 e) i,
      λ i. found.1 (s, (i, beq_refl s)),
    )

-- What a name says of the decorators that carry it.
abbrev is_task : Option String → Bool
is_task n = elim n [ none ↦ false | some t ↦ contains task_decorators t ]

task_of_trailing : (e : Expr) → is_task (trailing e) ≡ true → IsTaskName e
task_of_trailing (Expr.call func keywords) h = cc
task_of_trailing (Expr.attribute value attr) h =
    (attr, ((contains_iff task_decorators attr).0 h, inr (value, refl)))
task_of_trailing (Expr.name id) h = (id, ((contains_iff task_decorators id).0 h, inl refl))
task_of_trailing Expr.other_expr h = cc

trailing_of_task : (e : Expr) → IsTaskName e → is_task (trailing e) ≡ true
trailing_of_task e (t, (i, inl same)) = rw same ((contains_iff task_decorators t).1 i)
trailing_of_task e (t, (i, inr (v, same))) = rw same ((contains_iff task_decorators t).1 i)

no_call : (func : Expr) (keywords : List (Option String)) → ¬ IsTaskName (Expr.call func keywords)
no_call func keywords (t, (i, inl same)) = ground (arith, same)
no_call func keywords (t, (i, inr (v, same))) = ground (arith, same)

pub registers_task_iff : (d : Expr) → (registers_task d ≡ true) ↔ IsTask d
registers_task_iff (Expr.call func keywords) = (
  λ h. inr (func, (keywords, (refl, task_of_trailing func h))),
  λ t. elim t [
    | inl plain ↦ absurd (no_call func keywords plain)
    | inr (f, (ks, (same, named))) ↦
        let e : func ≡ f = ground (arith, same) in
        ap (λ x. is_task (trailing x)) e ∙ trailing_of_task f named
  ],
)
registers_task_iff (Expr.attribute value attr) = (
  λ h. inl (task_of_trailing (Expr.attribute value attr) h),
  λ t. elim t [
    | inl plain ↦ trailing_of_task (Expr.attribute value attr) plain
    | inr (f, (ks, (same, named))) ↦ absurd (ground (arith, same))
  ],
)
registers_task_iff (Expr.name id) = (
  λ h. inl (task_of_trailing (Expr.name id) h),
  λ t. elim t [
    | inl plain ↦ trailing_of_task (Expr.name id) plain
    | inr (f, (ks, (same, named))) ↦ absurd (ground (arith, same))
  ],
)
registers_task_iff Expr.other_expr = (
  λ h. cc,
  λ t. elim t [
    | inl plain ↦ trailing_of_task Expr.other_expr plain
    | inr (f, (ks, (same, named))) ↦ absurd (ground (arith, same))
  ],
)

-- The decorator is called with the keyword `name=`.
abbrev pub IsPinned : Expr → Type 0
IsPinned d =
    (func : Expr) × ((keywords : List (Option String)) × ((d ≡ Expr.call func keywords)
        × In (some "name") keywords))

name_of_exists :
    (keywords : List (Option String))
    → exists is_name_keyword keywords ≡ true
    → In (some "name") keywords
name_of_exists [] h = cc
name_of_exists (none ∷ ks) h = inr (name_of_exists ks h)
name_of_exists (some k ∷ ks) h = elim (Bool-cases (k == "name")) [
  | inl e ↦ inl (ap some (sym ((eq_iff k "name").0 e)))
  | inr e ↦ inr (name_of_exists ks (rw e at h))
]

exists_of_name :
    (keywords : List (Option String))
    → In (some "name") keywords
    → exists is_name_keyword keywords ≡ true
exists_of_name [] h = absurd h
exists_of_name (none ∷ ks) (inl e) = absurd (ground (arith, e))
exists_of_name (none ∷ ks) (inr h) = exists_of_name ks h
exists_of_name (some k ∷ ks) (inl e) = ground (arith, eq_iff k "name", e)
exists_of_name (some k ∷ ks) (inr h) = ground (arith, exists_of_name ks h)

pub IsPinned-of_explicit : (d : Expr) → has_explicit_name d ≡ true → IsPinned d
IsPinned-of_explicit (Expr.call func keywords) h =
    (func, (keywords, (refl, name_of_exists keywords h)))
IsPinned-of_explicit (Expr.attribute value attr) h = cc
IsPinned-of_explicit (Expr.name id) h = cc
IsPinned-of_explicit Expr.other_expr h = cc

pub explicit_of_call : (d : Expr) → IsPinned d → has_explicit_name d ≡ true
explicit_of_call d (func, (keywords, (e, h))) = rw e (exists_of_name keywords h)
