-- ===== src/Scripts/TaskNames/Pinned.antt =====
-- scripts/check_task_names.py: when the check passes.
use boutique_backend.Prelude.{
  ℕ, ◌≡◌, ◌↔◌, refl, inl, inr, String, Bool, true, false, not, ◌&&◌, Option, none, some, List, [],
  ◌∷◌, exists, select, string_eq, arith, Bool-cases, Option-cases,
}
use boutique_backend.Prelude.Members.{In, In-select, In-order_by, none_of_exists}
use boutique_backend.Scripts.{append-eq-nil, append_both_iff, exit_code}
use boutique_backend.Scripts.TaskNames.Decorators.{
  IsTask, registers_task_iff, IsPinned, IsPinned-of_explicit, explicit_of_call,
}
use boutique_backend.Scripts.TaskNames.{
  Expr, Node, Sources, registers_task, has_explicit_name, decorator_problems, node_problems,
  check_file, is_skipped, iter_sources, scan, source_root, report, finish, task_names_main,
}

abbrev pub decorators : Node → List Expr
decorators (Node.function_def func lineno ds) = ds
decorators Node.other_node = []

-- Every decorator in the file that registers a task is called with a name.
abbrev pub IsPinnedFile : List Node → Type 0
IsPinnedFile tree =
    (n : Node) → In n tree → (d : Expr) → In d (decorators n) → IsTask d → IsPinned d

-- The root is a directory, and every Python file below it that is not skipped parses and is pinned.
abbrev pub IsPinnedTree : Sources → String → Type 0
IsPinnedTree sources root =
    (sources.is_dir root ≡ true)
    × ((path : String)
        → In path (sources.rglob root)
        → is_skipped sources path ≡ false
        → (tree : List Node) × ((sources.walk path ≡ some tree) × IsPinnedFile tree))

module _ {A : Type 0} where
  exists_of_none :
      (p : A → Bool) (xs : List A) → ((x : A) → In x xs → p x ≡ false) → exists p xs ≡ false
  exists_of_none p [] h = refl
  exists_of_none p (x ∷ xs) h =
      ground (arith, h x (inl refl), exists_of_none p xs (λ y i. h y (inr i)))

  none_iff :
      (p : A → Bool) (xs : List A) → (exists p xs ≡ false) ↔ ((x : A) → In x xs → p x ≡ false)
  none_iff p xs = (λ h x i. none_of_exists p x xs h i, exists_of_none p xs)

-- A task without a name.
abbrev offends : Expr → Bool
offends d = registers_task d && not (has_explicit_name d)

offends_iff : (d : Expr) → (offends d ≡ false) ↔ (IsTask d → IsPinned d)
offends_iff d = (
  λ h t. IsPinned-of_explicit d (ground (arith, h, (registers_task_iff d).1 t)),
  λ h. elim (Bool-cases (registers_task d)) [
    | inl t ↦ ground (arith, t, explicit_of_call d (h ((registers_task_iff d).0 t)))
    | inr t ↦ ground (arith, t)
  ],
)

module _ (sources : Sources) (path root : String) where
  decorators_iff :
      (func : String) (lineno : ℕ) (ds : List Expr)
      → (decorator_problems sources path root func lineno ds ≡ []) ↔ (exists offends ds ≡ false)
  decorators_iff func lineno [] = (λ h. refl, λ h. refl)
  decorators_iff func lineno (d ∷ ds) = ground (arith, decorators_iff func lineno ds)

  nodes_iff :
      (tree : List Node)
      → (node_problems sources path root tree ≡ [])
        ↔ (exists (λ n. exists offends (decorators n)) tree ≡ false)
  nodes_iff [] = (λ h. refl, λ h. refl)
  nodes_iff (Node.function_def func lineno ds ∷ tree) = ground (
    arith,
    decorators_iff func lineno ds,
    nodes_iff tree,
    append-eq-nil (decorator_problems sources path root func lineno ds)
        (node_problems sources path root tree),
  )
  nodes_iff (Node.other_node ∷ tree) = nodes_iff tree

  file_iff : (tree : List Node) → (node_problems sources path root tree ≡ []) ↔ IsPinnedFile tree
  file_iff tree = (
    λ h n i d j. (offends_iff d).0 (
        none_of_exists offends d (decorators n)
          (none_of_exists (λ m. exists offends (decorators m)) n tree ((nodes_iff tree).0 h) i) j),
    λ h. (nodes_iff tree).1 (
        exists_of_none (λ m. exists offends (decorators m)) tree
          λ n i. exists_of_none offends (decorators n) λ d j. (offends_iff d).1 (h n i d j)),
  )

  check_file_iff :
      (check_file sources path root ≡ some [])
      ↔ ((tree : List Node) × ((sources.walk path ≡ some tree) × IsPinnedFile tree))
  unfolding check_file
  check_file_iff = elim (Option-cases (sources.walk path)) [
    | inl e ↦ (λ h. absurd (ground (arith, e, h)), λ (tree, (f, h)). absurd (ground (arith, e, f)))
    | inr (tree, e) ↦ (
      λ h. (tree, (e, (file_iff tree).0 (ground (arith, e, h)))),
      λ (other, (f, h)). ground (arith, f, (file_iff other).1 h),
    )
  ]

module _ (sources : Sources) (root : String) where
  scan_iff :
      (paths : List String)
      → (scan sources root paths ≡ some [])
        ↔ ((p : String) → In p paths → check_file sources p root ≡ some [])
  scan_iff [] = (λ h p i. absurd i, λ h. refl)
  scan_iff (path ∷ paths) = (
    λ h p i.
        let (first, rest) =
          (append_both_iff (check_file sources path root) (scan sources root paths)).0 h in
        elim i [ inl e ↦ rw e first | inr j ↦ (scan_iff paths).0 rest p j ],
    λ h.
        (append_both_iff (check_file sources path root) (scan sources root paths)).1
          (h path (inl refl), (scan_iff paths).1 (λ p j. h p (inr j))),
  )

  sources_iff :
      (path : String)
      → In path (iter_sources sources root)
        ↔ (In path (sources.rglob root) × (is_skipped sources path ≡ false))
  unfolding iter_sources
  sources_iff path =
      let kept = select (λ p. not (is_skipped sources p)) (sources.rglob root) in
      let sorted = In-order_by sources.before path kept in
      let chosen = In-select (λ p. not (is_skipped sources p)) path (sources.rglob root) in
      (
        λ h. let (i, e) = chosen.0 (sorted.0 h) in (i, ground (arith, e)),
        λ (i, e). sorted.1 (chosen.1 (i, ground (arith, e))),
      )

  tree_iff : (scan sources root (iter_sources sources root) ≡ some []) ↔ (
      (path : String)
      → In path (sources.rglob root)
      → is_skipped sources path ≡ false
      → (tree : List Node) × ((sources.walk path ≡ some tree) × IsPinnedFile tree))
  tree_iff = (
    λ h path i e.
        (check_file_iff sources path root).0
          ((scan_iff (iter_sources sources root)).0 h path ((sources_iff path).1 (i, e))),
    λ h. (scan_iff (iter_sources sources root)).1 λ path j.
        let (i, e) = (sources_iff path).0 j in (check_file_iff sources path root).1 (h path i e),
  )

report_iff : (problems : List String) → ((report problems).0 ≡ 0) ↔ (problems ≡ [])
report_iff [] = (λ h. refl, λ h. refl)
report_iff (p ∷ ps) = (λ h. absurd (omega (arith, h)), λ h. absurd (ground (arith, h)))

finish_iff :
    (problems : Option (List String))
    → (exit_code (finish problems) ≡ some 0) ↔ (problems ≡ some [])
finish_iff none = (λ h. absurd (ground (arith, h)), λ h. absurd (ground (arith, h)))
finish_iff (some ps) = ground (arith, report_iff ps)

-- The script exits with 0 exactly if its root is a directory and every Python file below it that is
-- not skipped parses and calls each decorator that registers a task with the keyword `name`.
pub task_names_main_iff :
    (sources : Sources) (arguments : List String)
    → (exit_code (task_names_main sources arguments) ≡ some 0)
      ↔ IsPinnedTree sources (source_root sources arguments)
unfolding task_names_main
task_names_main_iff sources arguments =
    let root = source_root sources arguments in
    elim (Bool-cases (sources.is_dir root)) [
      | inl e ↦ (
        λ h. (
          e,
          (tree_iff sources root).0
              ((finish_iff (scan sources root (iter_sources sources root))).0 (rw e at h)),
        ),
        λ (f, h). rw e (
            (finish_iff (scan sources root (iter_sources sources root))).1
              ((tree_iff sources root).1 h)),
      )
      | inr e ↦ (λ h. absurd (ground (arith, e, h)), λ (f, h). absurd (ground (arith, e, f)))
    ]
