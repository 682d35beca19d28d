-- ===== src/Scripts/Tests.antt =====
-- Runs of the repository's checks, and the theorems at concrete inputs.
use boutique_backend.Prelude.{
  ◌≡◌, ◌↔◌, refl, String, true, false, none, some, List, [], ◌∷◌, ◌==◌, string_eq, if◌then◌else◌,
}
use boutique_backend.Scripts.{exit_code}
use boutique_backend.Scripts.TaskNames.{
  Expr, Node, Sources, check_file, iter_sources, source_root, task_names_main,
}
use boutique_backend.Scripts.TaskNames.Pinned.{IsPinnedTree, task_names_main_iff}
use boutique_backend.Scripts.Workflows.{
  Workflow, Workflows, real_file, noop_file, check_names, check_paths, workflows_main,
}
use boutique_backend.Scripts.Workflows.Twins.{AreTwins, workflows_main_lem}
use boutique_backend.Catalog.Slugs.{numeral, spell}

program : Unit {0}
unfolding check_file iter_sources task_names_main check_names check_paths workflows_main numeral
    spell
program = tt

-- `@shared_task(name="…", autoretry_for=…)`, as on send_password_reset_email
abbrev named_task : Expr
named_task = Expr.call (Expr.name "shared_task") (some "name" ∷ some "autoretry_for" ∷ [])

-- `@app.task(bind=True)`
abbrev unnamed_task : Expr
unnamed_task = Expr.call (Expr.attribute (Expr.name "app") "task") (some "bind" ∷ [])

-- The tasks of the users app; `decorated` is how its one function is decorated.
abbrev sources_with : Expr → Sources
sources_with decorated = record {
  is_dir = λ root. root == "src";
  rglob = λ root. "src/apps/users/tasks.py" ∷ "src/apps/users/tests/test_tasks.py" ∷ [];
  parts = λ path.
      if path == "src/apps/users/tasks.py"
      then "src" ∷ "apps" ∷ "users" ∷ "tasks.py" ∷ []
      else "src" ∷ "apps" ∷ "users" ∷ "tests" ∷ "test_tasks.py" ∷ [];
  before = λ a b. false;
  walk = λ path. some (Node.other_node ∷ Node.function_def "send" 24 (decorated ∷ []) ∷ []);
  posix_stem = λ path root. "apps/users/tasks";
  repr = λ s. s;
  repr_path = λ s. s;
}

run-task_names_main : exit_code (task_names_main (sources_with named_task) []) ≡ some 0
unfolding program
run-task_names_main = refl

run-check_file :
    check_file (sources_with unnamed_task) "src/apps/users/tasks.py" "src"
    ≡ some (
        "  src/apps/users/tasks.py:24  send() has no explicit name=\n      fix: @shared_task(name=apps.users.tasks.send, ...)"
        ∷ [])
unfolding program
run-check_file = refl

task_names_main_iff_example :
    (exit_code (task_names_main (sources_with unnamed_task) []) ≡ some 0)
    ↔ IsPinnedTree (sources_with unnamed_task) (source_root (sources_with unnamed_task) [])
task_names_main_iff_example = task_names_main_iff (sources_with unnamed_task) []

abbrev dependency_files : List String
dependency_files = "pyproject.toml" ∷ "uv.lock" ∷ "Makefile" ∷ []

abbrev real : Workflow
real = record {
  name = "Dependency checks";
  jobs = ("licences", some "licences") ∷ ("vulnerabilities", some "vulnerabilities") ∷ [];
  push = record { paths = some dependency_files; paths_ignore = none };
  pull_request = record { paths = some dependency_files; paths_ignore = none };
}

abbrev noop : Workflow
noop = record real {
  push = record { paths = none; paths_ignore = some dependency_files };
  pull_request = record { paths = none; paths_ignore = some dependency_files };
}

abbrev twins : Workflow → Workflows
twins twin = record {
  is_file = λ path. true;
  load = λ path. if path == real_file then some real else some twin;
  before = λ a b. false;
  repr = λ s. s;
  repr_list = λ names. "";
  repr_paths = λ paths. "";
}

run-workflows_main : exit_code (workflows_main (twins noop)) ≡ some 0
unfolding program
run-workflows_main = refl

run-renamed_job :
    exit_code (
      workflows_main
        (twins (record noop { jobs = ("licences", none) ∷ ("vulnerabilities", none) ∷ [] })))
    ≡ some 1
unfolding program
run-renamed_job = refl

workflows_main_lem_example :
    (r : Workflow) × ((n : Workflow) × (((twins noop).load real_file ≡ some r)
        × (((twins noop).load noop_file ≡ some n) × AreTwins r n)))
workflows_main_lem_example = workflows_main_lem (twins noop) run-workflows_main
