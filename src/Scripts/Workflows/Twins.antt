-- ===== src/Scripts/Workflows/Twins.antt =====
-- scripts/check_workflow_invariants.py: what holds of the two workflows when the check passes.
use boutique_backend.Prelude.{
  ◌≡◌, refl, sym, ap, ◌∙◌, ◌⊎◌, inl, inr, String, Bool, true, Option, none, some, List, [], ◌∷◌,
  ◌==◌, string_eq, arith, eq_iff, Bool-cases, Option-cases,
}
use boutique_backend.Prelude.Dict.{Dict, lookup}
use boutique_backend.Prelude.Members.{In, In-order_by}
use boutique_backend.Scripts.{◌<+>◌, append-eq-nil, append_both, append_both_iff, exit_code}
use boutique_backend.Scripts.Workflows.{
  Trigger, Workflow, Workflows, list_eq, option_eq, real_file, noop_file, keys, sorted_jobs,
  name_problems, one_job, job_problems, check_names, path_problems, check_paths, verdict,
  compare_both, workflows_main,
}

-- The twin ignores the very list of paths that the real workflow has, or neither names any: then both run
-- on every change.
abbrev pub SameFilter : Option (List String) → Option (List String) → Type 0
SameFilter paths paths_ignore =
    ((ps : List String) × ((paths ≡ some ps) × (paths_ignore ≡ some ps)))
    ⊎ ((paths ≡ none) × (paths_ignore ≡ none))

-- The workflows report under the same names, and their filters are the same.
pub record AreTwins (real noop : Workflow) : Type 0 where
  pub name : real.name ≡ noop.name
  pub jobs : (job : String) → lookup job real.jobs ≡ lookup job noop.jobs
  pub push : SameFilter real.push.paths noop.push.paths_ignore
  pub pull_request : SameFilter real.pull_request.paths noop.pull_request.paths_ignore

list_of_eq : (xs ys : List String) → list_eq xs ys ≡ true → xs ≡ ys
list_of_eq [] [] h = refl
list_of_eq [] (y ∷ ys) h = cc
list_of_eq (x ∷ xs) [] h = cc
list_of_eq (x ∷ xs) (y ∷ ys) h = ground (arith, eq_iff x y, list_of_eq xs ys)

option_of_eq :
    {A : Type 0} (eq : A → A → Bool)
    → ((a b : A) → eq a b ≡ true → a ≡ b)
    → (o p : Option A) → option_eq eq o p ≡ true
    → o ≡ p
option_of_eq eq f none none h = refl
option_of_eq eq f none (some b) h = cc
option_of_eq eq f (some a) none h = cc
option_of_eq eq f (some a) (some b) h = ap some (f a b h)

In-keys :
    (job : String) (n : Option String) (jobs : Dict (Option String))
    → lookup job jobs ≡ some n
    → In job (keys jobs)
In-keys job n [] h = absurd (ground (arith, h))
In-keys job n ((j, m) ∷ jobs) h = elim (Bool-cases (j == job)) [
  | inl e ↦ inl (sym ((eq_iff j job).0 e))
  | inr e ↦ inr (In-keys job n jobs (rw e at h))
]

module _ (world : Workflows) where
  same_name :
      (job : String) (a b : Option (Option String))
      → one_job world job a b ≡ some []
      → (n : Option String) × ((a ≡ some n) × (b ≡ some n))
  same_name job none b h = absurd (ground (arith, h))
  same_name job (some a) none h = absurd (ground (arith, h))
  same_name job (some a) (some b) h =
      let same = option_of_eq (λ s t. s == t) (λ s t. (eq_iff s t).0) a b (ground (arith, h)) in
      (a, (refl, ap some (sym same)))

  module _ (real noop : Workflow) where
    every_job :
        (jobs : List String)
        → job_problems world real noop jobs ≡ some []
        → (job : String) → In job jobs
        → (n : Option String) × ((lookup job real.jobs ≡ some n) × (lookup job noop.jobs ≡ some n))
    every_job [] h job i = absurd i
    every_job (j ∷ js) h job i =
        let (first, rest) =
          (append_both_iff (one_job world j (lookup j real.jobs) (lookup j noop.jobs))
              (job_problems world real noop js)).0
            h in
        elim i [
          | inl e ↦ rw e (same_name j (lookup j real.jobs) (lookup j noop.jobs) first)
          | inr k ↦ every_job js rest job k
        ]

    same_keys :
        list_eq (sorted_jobs world real) (sorted_jobs world noop) ≡ true
        → (job : String) → In job (keys noop.jobs)
        → In job (keys real.jobs)
    same_keys e job i =
        let same = list_of_eq (sorted_jobs world real) (sorted_jobs world noop) e in
        (In-order_by world.before job (keys real.jobs)).0
          (rw same ((In-order_by world.before job (keys noop.jobs)).1 i))

    same_jobs :
        list_eq (sorted_jobs world real) (sorted_jobs world noop) ≡ true
        → job_problems world real noop (keys real.jobs) ≡ some []
        → (job : String) → lookup job real.jobs ≡ lookup job noop.jobs
    same_jobs e h job = elim (Option-cases (lookup job real.jobs)) [
      | inr (n, found) ↦
          let (m, (a, b)) = every_job (keys real.jobs) h job (In-keys job n real.jobs found) in
          a ∙ sym b
      | inl missing ↦ elim (Option-cases (lookup job noop.jobs)) [
        | inl too ↦ missing ∙ sym too
        | inr (n, found) ↦
            let (m, (a, b)) =
              every_job (keys real.jobs) h job (same_keys e job (In-keys job n noop.jobs found)) in
            a ∙ sym b
      ]
    ]

    name_of_silent : name_problems world real noop ≡ [] → real.name ≡ noop.name
    name_of_silent h = ground (arith, eq_iff real.name noop.name, h)

    check_names_lem :
        check_names world real noop ≡ some []
        → (real.name ≡ noop.name) × ((job : String) → lookup job real.jobs ≡ lookup job noop.jobs)
    unfolding check_names
    check_names_lem h =
        elim (Bool-cases (list_eq (sorted_jobs world real) (sorted_jobs world noop))) [
          | inl e ↦
              let (first, rest) =
                (append_both_iff (some (name_problems world real noop))
                    (job_problems world real noop (keys real.jobs))).0
                  (rw e at h) in
              (name_of_silent (ground (arith, first)), same_jobs e rest)
          | inr e ↦ absurd (
              ground (
                arith,
                e,
                h,
                append-eq-nil (name_problems world real noop) (
                    ("job ids differ: "
                      <+> world.repr_list (sorted_jobs world real)
                      <+> " vs "
                      <+> world.repr_list (sorted_jobs world noop))
                    ∷ []),
              ))
        ]

  paths_of_silent :
      (trigger : String) (real noop : Trigger)
      → path_problems world trigger real noop ≡ []
      → SameFilter real.paths noop.paths_ignore
  paths_of_silent trigger real noop h =
      let same = option_of_eq list_eq list_of_eq real.paths noop.paths_ignore (ground (arith, h)) in
      elim (Option-cases real.paths) [
        | inl missing ↦ inr (missing, sym same ∙ missing)
        | inr (ps, given) ↦ inl (ps, (given, sym same ∙ given))
      ]

  both_complement :
      (real noop : Workflow)
      → append_both (check_names world real noop) (some (check_paths world real noop)) ≡ some []
      → AreTwins real noop
  unfolding check_paths
  both_complement real noop h =
      let (named, paths) =
        (append_both_iff (check_names world real noop) (some (check_paths world real noop))).0 h in
      let (push, pull) =
        (append-eq-nil (path_problems world "push" real.push noop.push)
            (path_problems world "pull_request" real.pull_request noop.pull_request)).0
          (ground (arith, paths)) in
      let (name, jobs) = check_names_lem real noop named in
      record {
        name = name;
        jobs = jobs;
        push = paths_of_silent "push" real.push noop.push push;
        pull_request = paths_of_silent "pull_request" real.pull_request noop.pull_request pull;
      }

  compared :
      (real noop : Option Workflow)
      → exit_code (verdict world (compare_both world real noop)) ≡ some 0
      → (r : Workflow) × ((n : Workflow) × ((real ≡ some r) × ((noop ≡ some n) × AreTwins r n)))
  compared none noop h = absurd (ground (arith, h))
  compared (some r) none h = absurd (ground (arith, h))
  compared (some r) (some n) h = (
    r,
    (n, (refl, (refl, both_complement r n (silent (compare_both world (some r) (some n)) h)))),
  )
    where
      silent :
          (problems : Option (List String))
          → exit_code (verdict world problems) ≡ some 0
          → problems ≡ some []
      silent none h = absurd (ground (arith, h))
      silent (some []) h = refl
      silent (some (p ∷ ps)) h = absurd (ground (arith, h))

  -- If the script exits with 0 then both workflows are there and load, with the same name and the same
  -- jobs under the same display names, and for each of the two triggers either the twin ignores the very
  -- list of paths that the real workflow has, or the real one has no paths and the twin ignores none.
  pub workflows_main_lem :
      exit_code (workflows_main world) ≡ some 0
      → (real : Workflow) × ((noop : Workflow) × ((world.load real_file ≡ some real)
            × ((world.load noop_file ≡ some noop) × AreTwins real noop)))
  unfolding workflows_main
  workflows_main_lem h = compared (world.load real_file) (world.load noop_file) (ground (arith, h))
