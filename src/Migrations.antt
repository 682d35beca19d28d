-- ===== src/Migrations.antt =====
-- src/apps/*/migrations: the operations as data, and the tables that they leave behind. Only what the
-- database sees of a field is kept: its type and width, and whether it is a key, unique or nullable.
pub mod Accounts
pub mod Stock
pub mod Trade
pub mod Agreement
mod Tests
use Prim.Native.Char.{code}
use boutique_backend.Prelude.{
  ℕ, ◌+◌, String, Bool, true, false, ◌&&◌, ◌||◌, Option, none, some, List, [], ◌∷◌, ◌++◌, exists,
  select, reject, modify, map, leb, ◌==◌, ℕ_eq, string_eq, if◌then◌else◌,
}

-- `on_delete`
pub data OnDelete : Type 0 where
  cascade protect set_null : OnDelete

pub data FieldType : Type 0 where
  uuid_field text_field json_field boolean_field positive_integer_field date_time_field : FieldType
  char_field slug_field url_field email_field : ℕ → FieldType
  foreign_key : String → OnDelete → FieldType
  many_to_many_field : String → FieldType

pub record Field : Type 0 where
  pub type : FieldType
  pub primary_key : Bool
  pub unique : Bool
  pub null : Bool

abbrev pub column : FieldType → Field
column t = record { type = t; primary_key = false; unique = false; null = false }

abbrev pub primary_key_column : FieldType → Field
primary_key_column t = record (column t) { primary_key = true }

abbrev pub unique_column : FieldType → Field
unique_column t = record (column t) { unique = true }

abbrev pub null_column : FieldType → Field
null_column t = record (column t) { null = true }

-- `settings.AUTH_USER_MODEL`
abbrev pub user_model : String
user_model = "users.User"

-- `models.UniqueConstraint`
pub record UniqueConstraint : Type 0 where
  pub name : String
  pub fields : List String

pub data Operation : Type 0 where
  create_model : String → String → List (String × Field) → List UniqueConstraint → Operation
  add_constraint : String → UniqueConstraint → Operation
  add_field alter_field : String → String → Field → Operation
  remove_field : String → String → Operation

pub record Table : Type 0 where
  pub model : String
  pub db_table : String
  pub fields : List (String × Field)
  pub constraints : List UniqueConstraint

-- Models are named in any case: 'Category' is 'category'.
abbrev fold_case : ℕ → ℕ
fold_case c = if leb 65 c && leb c 90 then c + 32 else c

abbrev pub same_model : String → String → Bool
same_model String.[] String.[] = true
same_model String.[] (String.◌∷◌ d t) = false
same_model (String.◌∷◌ c s) String.[] = false
same_model (String.◌∷◌ c s) (String.◌∷◌ d t) =
    let rest = same_model s t in fold_case (code c) == fold_case (code d) && rest

-- `none` is the KeyError of a model that is not there.
abbrev pub on_table : String → (Table → Table) → List Table → Option (List Table)
on_table model f tables =
    if exists (λ t. same_model t.model model) tables
    then some (modify (λ t. same_model t.model model) f tables)
    else none

unfoldable pub apply : Operation → List Table → Option (List Table)
apply (create_model model db_table fields constraints) tables = some (
    tables
    ++ record { model = model; db_table = db_table; fields = fields; constraints = constraints }
      ∷ [])
apply (add_constraint model constraint) tables =
    on_table model (λ t. record t { constraints = t.constraints ++ constraint ∷ [] }) tables
apply (add_field model name field) tables =
    on_table model (λ t. record t { fields = t.fields ++ (name, field) ∷ [] }) tables
apply (alter_field model name field) tables =
    on_table model
      (λ t. record t { fields = modify (λ f. f.0 == name) (λ f. (name, field)) t.fields }) tables
apply (remove_field model name) tables =
    on_table model (λ t. record t { fields = reject (λ f. f.0 == name) t.fields }) tables

unfoldable pub migrate : List Operation → List Table → Option (List Table)
migrate [] tables = some tables
migrate (o ∷ os) tables = elim (apply o tables) [ none ↦ none | some ts ↦ migrate os ts ]

-- The fields that no two rows of a table may share: a key, a unique column, or a constraint.
unfoldable pub unique_sets : Table → List (List String)
unique_sets t =
    map (λ f. f.0 ∷ []) (select (λ f. f.1.primary_key || f.1.unique) t.fields)
    ++ map (λ c. c.fields) t.constraints
