-- ===== src/Migrations/Tests.antt =====
-- Runs of the migrations, and the theorem at two rows.
use boutique_backend.Prelude.{
  ◌≡◌, refl, String, Option, none, some, List, [], ◌∷◌, map, find?, string_eq, ◌==◌, ◌++◌,
  if◌then◌else◌,
}
use boutique_backend.Samples.{gown, heels}
use boutique_backend.Migrations.{
  OnDelete, cascade, set_null, foreign_key, Field, Table, same_model, apply, migrate,
}
use boutique_backend.Migrations.Agreement.{
  all_migrations, uniques_of, clash_on, columns, products, clash, clash_lem,
}

-- The fields of a table that point at a model, with what its deletion does to them.
abbrev pointing : String → List (String × Field) → List (String × OnDelete)
pointing target [] = []
pointing target ((name, f) ∷ fs) =
    let rest = pointing target fs in
    elim f.type [
      | foreign_key to rule ↦ if to == target then (name, rule) ∷ rest else rest
      | _ ↦ rest
    ]

abbrev tables_pointing : String → List Table → List (String × OnDelete)
tables_pointing target [] = []
tables_pointing target (t ∷ ts) =
    map (λ f. (t.db_table, f.1)) (pointing target t.fields) ++ tables_pointing target ts

abbrev migrated : Option (List Table) → List Table
migrated none = []
migrated (some ts) = ts

-- The foreign keys that a deletion of a product follows.
run-tables_pointing :
    tables_pointing "products.product" (migrated (migrate all_migrations []))
    ≡ ("product_images", cascade)
      ∷ ("variant_groups", cascade)
      ∷ ("order_items", set_null)
      ∷ ("favorites", cascade)
      ∷ []
unfolding migrate apply
run-tables_pointing = refl

abbrev names_of : Option Table → List String
names_of none = []
names_of (some t) = map (λ f. f.0) t.fields

-- The third migration of the users takes `is_seller` away.
run-migrate :
    names_of (find? (λ t. same_model t.model "user") (migrated (migrate all_migrations [])))
    ≡ "password" ∷ "last_login" ∷ "is_superuser" ∷ "id" ∷ "name" ∷ "phone_number" ∷ "is_active"
      ∷ "is_staff" ∷ "created_at" ∷ "groups" ∷ "user_permissions" ∷ "email" ∷ []
unfolding migrate apply
run-migrate = refl

clash_lem_example :
    clash products gown heels
    ≡ clash_on (uniques_of "Product") (columns products gown) (columns products heels)
clash_lem_example = clash_lem products gown heels
