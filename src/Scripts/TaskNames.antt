-- ===== src/Scripts/TaskNames.antt =====
-- scripts/check_task_names.py: every Celery task declares an explicit name. Python's parser and the
-- file system are parameters; an expression is what the script can tell of it.
pub mod Pinned
pub mod Decorators
use boutique_backend.Prelude.{
  ℕ, String, Bool, true, false, not, Option, none, some, List, [], ◌∷◌, ◌++◌, exists, select, ◌==◌,
  string_eq, if◌then◌else◌,
}
use boutique_backend.Prelude.Sorting.{order_by}
use boutique_backend.Prelude.Strings.{replace_char}
use boutique_backend.Scripts.{◌<+>◌, append_both}
use boutique_backend.Catalog.Slugs.{numeral}

-- `ast.expr`: a call has the `arg` of each of its keywords, `none` for `**kwargs`.
pub data Expr : Type 0 where
  call : Expr → List (Option String) → Expr
  attribute : Expr → String → Expr
  name : String → Expr
  other_expr : Expr

-- A node that `ast.walk` meets: a function, async or not, with its line and its decorators.
pub data Node : Type 0 where
  function_def : String → ℕ → List Expr → Node
  other_node : Node

-- What the script asks of `pathlib`, `ast` and `repr`. `walk` is `none` where a file cannot be read or
-- parsed, and `posix_stem` spells a path below the root without its suffix, with slashes.
pub record Sources : Type 0 where
  pub is_dir : String → Bool
  pub rglob : String → List String
  pub parts : String → List String
  pub before : String → String → Bool
  pub walk : String → Option (List Node)
  pub posix_stem : String → String → String
  pub repr : String → String
  pub repr_path : String → String

abbrev pub contains : List String → String → Bool
contains names s = exists (λ n. n == s) names

-- `TASK_DECORATORS`
abbrev pub task_decorators : List String
task_decorators = "shared_task" ∷ "task" ∷ "periodic_task" ∷ []

-- `SKIP_DIRS`
abbrev pub skip_dirs : List String
skip_dirs = "migrations" ∷ "tests" ∷ "__pycache__" ∷ ".venv" ∷ []

abbrev pub trailing : Expr → Option String
trailing (call func keywords) = none
trailing (attribute value attr) = some attr
trailing (name id) = some id
trailing other_expr = none

-- `_decorator_name`
abbrev pub decorator_name : Expr → Option String
decorator_name (call func keywords) = trailing func
decorator_name (attribute value attr) = trailing (attribute value attr)
decorator_name (name id) = trailing (name id)
decorator_name other_expr = trailing other_expr

abbrev pub registers_task : Expr → Bool
registers_task d = elim (decorator_name d) [ none ↦ false | some n ↦ contains task_decorators n ]

abbrev pub is_name_keyword : Option String → Bool
is_name_keyword none = false
is_name_keyword (some arg) = arg == "name"

-- `_has_explicit_name`
abbrev pub has_explicit_name : Expr → Bool
has_explicit_name (call func keywords) = exists is_name_keyword keywords
has_explicit_name (attribute value attr) = false
has_explicit_name (name id) = false
has_explicit_name other_expr = false

abbrev pub report : List String → ℕ × List String
report [] = (0, "OK: every Celery task declares an explicit name=" ∷ [])
report (p ∷ ps) = (
  1,
  ("Celery tasks must declare an explicit name=:\n" ∷ p ∷ ps)
      ++ "\nA task's registered name is derived from its module path unless you pin it.\nMoving the module then silently orphans queued messages and beat rows.\nWhen moving an existing task, keep its current name verbatim."
        ∷ [],
)

abbrev pub finish : Option (List String) → Option (ℕ × List String)
finish none = none
finish (some problems) = some (report problems)

module _ (sources : Sources) where
  -- `_suggested_name`
  abbrev pub suggested_name : String → String → String → String
  suggested_name path root func =
      replace_char 47 "." (sources.posix_stem path root) <+> "." <+> func

  abbrev pub problem : String → String → String → ℕ → String
  problem path root func lineno =
      "  "
      <+> path
      <+> ":"
      <+> numeral lineno
      <+> "  "
      <+> func
      <+> "() has no explicit name=\n      fix: @shared_task(name="
      <+> sources.repr (suggested_name path root func)
      <+> ", ...)"

  abbrev pub decorator_problems : String → String → String → ℕ → List Expr → List String
  decorator_problems path root func lineno [] = []
  decorator_problems path root func lineno (d ∷ ds) =
      let rest = decorator_problems path root func lineno ds in
      if not (registers_task d)
      then rest
      else if has_explicit_name d
      then rest
      else problem path root func lineno ∷ rest

  abbrev pub node_problems : String → String → List Node → List String
  node_problems path root [] = []
  node_problems path root (function_def func lineno decorators ∷ nodes) =
      decorator_problems path root func lineno decorators ++ node_problems path root nodes
  node_problems path root (other_node ∷ nodes) = node_problems path root nodes

  unfoldable pub check_file : String → String → Option (List String)
  check_file path root = elim (sources.walk path) [
    | none ↦ none
    | some tree ↦ some (node_problems path root tree)
  ]

  abbrev pub is_skipped : String → Bool
  is_skipped path = exists (contains skip_dirs) (sources.parts path)

  unfoldable pub iter_sources : String → List String
  iter_sources root =
      order_by sources.before (select (λ p. not (is_skipped p)) (sources.rglob root))

  -- The problems of the files, in order.
  abbrev pub scan : String → List String → Option (List String)
  scan root [] = some []
  scan root (path ∷ paths) = append_both (check_file path root) (scan root paths)

  abbrev pub source_root : List String → String
  source_root [] = "src"
  source_root (argument ∷ arguments) = argument

  -- The exit code and the lines that are printed, from the arguments of the command line; `none` where
  -- an exception of reading or parsing a file leaves the script.
  unfoldable pub task_names_main : List String → Option (ℕ × List String)
  unfolding iter_sources
  task_names_main arguments =
      let root = source_root arguments in
      if not (sources.is_dir root)
      then some (2, ("source root " <+> sources.repr_path root <+> " does not exist") ∷ [])
      else finish (scan root (iter_sources root))
