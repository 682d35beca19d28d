-- ===== src/Scripts/Workflows.antt =====
-- scripts/check_workflow_invariants.py: deps.yml and its no-op twin stay exact complements. PyYAML and
-- the file system are parameters.
pub mod Twins
use boutique_backend.Prelude.{
  ℕ, String, Bool, true, false, not, ◌&&◌, Option, none, some, List, [], ◌∷◌, ◌++◌, map, ◌==◌,
  string_eq, if◌then◌else◌,
}
use boutique_backend.Scripts.{◌<+>◌, append_both}
use boutique_backend.Prelude.Sorting.{order_by}
use boutique_backend.Prelude.Dict.{Dict, lookup}

-- `on.push` and `on.pull_request`: the two keys that the script reads with `get`
pub record Trigger : Type 0 where
  pub paths : Option (List String)
  pub paths_ignore : Option (List String)

-- A workflow; of a job, its display name, which may be missing.
pub record Workflow : Type 0 where
  pub name : String
  pub jobs : Dict (Option String)
  pub push : Trigger
  pub pull_request : Trigger

-- `yaml.safe_load` of a file: `none` where reading fails, or where a key that the script indexes is
-- missing. `before` is Python's order of texts, and the printers are `repr`'s.
pub record Workflows : Type 0 where
  pub is_file : String → Bool
  pub load : String → Option Workflow
  pub before : String → String → Bool
  pub repr : String → String
  pub repr_list : List String → String
  pub repr_paths : Option (List String) → String

-- `==` of two lists of texts, and of two values that may be `None`
abbrev pub list_eq : List String → List String → Bool
list_eq [] [] = true
list_eq [] (y ∷ ys) = false
list_eq (x ∷ xs) [] = false
list_eq (x ∷ xs) (y ∷ ys) = x == y && list_eq xs ys

abbrev pub option_eq : {A : Type 0} → (A → A → Bool) → Option A → Option A → Bool
option_eq eq none none = true
option_eq eq none (some b) = false
option_eq eq (some a) none = false
option_eq eq (some a) (some b) = eq a b

-- `REAL` and `NOOP`
abbrev pub real_file : String
real_file = ".github/workflows/deps.yml"

abbrev pub noop_file : String
noop_file = ".github/workflows/deps-noop.yml"

abbrev pub keys : Dict (Option String) → List String
keys [] = []
keys ((job, n) ∷ jobs) = job ∷ keys jobs

module _ (world : Workflows) where
  abbrev pub sorted_jobs : Workflow → List String
  sorted_jobs w = order_by world.before (keys w.jobs)

  abbrev pub name_problems : Workflow → Workflow → List String
  name_problems real noop =
      if real.name == noop.name
      then []
      else ("workflow name differs: " <+> world.repr real.name <+> " vs " <+> world.repr noop.name)
        ∷ []

  abbrev pub job_problem : String → Option String → Option String → List String
  job_problem job a b =
      if option_eq (λ s t. s == t) a b
      then []
      else ("job " <+> world.repr job <+> ": display name differs") ∷ []

  -- `real["jobs"][job]` and `noop["jobs"][job]`, which raise on a missing key
  abbrev pub one_job :
      String → Option (Option String) → Option (Option String) → Option (List String)
  one_job job none b = none
  one_job job (some a) none = none
  one_job job (some a) (some b) = some (job_problem job a b)

  abbrev pub job_problems : Workflow → Workflow → List String → Option (List String)
  job_problems real noop [] = some []
  job_problems real noop (job ∷ jobs) =
      append_both (one_job job (lookup job real.jobs) (lookup job noop.jobs))
        (job_problems real noop jobs)

  -- `_check_names`
  unfoldable pub check_names : Workflow → Workflow → Option (List String)
  check_names real noop =
      let found = name_problems real noop in
      if not (list_eq (sorted_jobs real) (sorted_jobs noop))
      then some (
          found
          ++ ("job ids differ: "
              <+> world.repr_list (sorted_jobs real)
              <+> " vs "
              <+> world.repr_list (sorted_jobs noop))
            ∷ [])
      else append_both (some found) (job_problems real noop (keys real.jobs))

  abbrev pub path_problems : String → Trigger → Trigger → List String
  path_problems trigger real noop =
      if option_eq list_eq real.paths noop.paths_ignore
      then []
      else (trigger
          <+> ": paths and paths-ignore are not complements\n      deps.yml      "
          <+> world.repr_paths real.paths
          <+> "\n      deps-noop.yml "
          <+> world.repr_paths noop.paths_ignore)
        ∷ []

  -- `_check_paths`
  unfoldable pub check_paths : Workflow → Workflow → List String
  check_paths real noop =
      path_problems "push" real.push noop.push
      ++ path_problems "pull_request" real.pull_request noop.pull_request

  abbrev pub verdict : Option (List String) → Option (ℕ × List String)
  verdict none = none
  verdict (some []) = some (0, "OK: deps.yml and deps-noop.yml are exact complements" ∷ [])
  verdict (some (p ∷ ps)) = some (
    1,
    ("deps.yml and deps-noop.yml have drifted:\n" ∷ map (λ q. "  " <+> q) (p ∷ ps))
        ++ "\nA required check that never reports blocks every pull request.\nChange both files in the same commit, or delete the pair."
          ∷ [],
  )

  abbrev pub compare_both : Option Workflow → Option Workflow → Option (List String)
  compare_both none noop = none
  compare_both (some real) none = none
  compare_both (some real) (some noop) =
      append_both (check_names real noop) (some (check_paths real noop))

  -- The exit code and the lines that are printed; `none` where an exception leaves the script.
  unfoldable pub workflows_main : Option (ℕ × List String)
  workflows_main =
      if not (world.is_file real_file)
      then some (2, ("missing workflow: " <+> real_file) ∷ [])
      else if not (world.is_file noop_file)
      then some (2, ("missing workflow: " <+> noop_file) ∷ [])
      else verdict (compare_both (world.load real_file) (world.load noop_file))
