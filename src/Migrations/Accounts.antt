-- ===== src/Migrations/Accounts.antt =====
-- The migrations of src/apps/boutiques and src/apps/users.
use boutique_backend.Prelude.{List, [], ◌∷◌}
use boutique_backend.Migrations.{
  Operation, create_model, add_field, alter_field, remove_field, column, primary_key_column,
  unique_column, null_column, uuid_field, char_field, slug_field, email_field, text_field,
  boolean_field, date_time_field, foreign_key, many_to_many_field, cascade, user_model,
}

abbrev pub boutiques_0001 : List Operation
boutiques_0001 =
    create_model "Boutique" "boutiques"
      (("id", (primary_key_column (uuid_field)))
        ∷ ("slug", (unique_column (slug_field 255)))
        ∷ ("name", (column (char_field 255)))
        ∷ ("created_at", (column (date_time_field)))
        ∷ [])
      ([])
    ∷ create_model "Membership" "memberships"
        (("id", (primary_key_column (uuid_field)))
          ∷ ("role", (column (char_field 8)))
          ∷ ("created_at", (column (date_time_field)))
          ∷ ("boutique", (column (foreign_key "boutiques.boutique" cascade)))
          ∷ ("user", (column (foreign_key user_model cascade)))
          ∷ [])
        ((record { name = "uniq_membership_user_boutique"; fields = "user" ∷ "boutique" ∷ [] })
          ∷ [])
    ∷ []

abbrev pub users_0001 : List Operation
users_0001 =
    create_model "User" "users"
      (("password", (column (char_field 128)))
        ∷ ("last_login", (null_column (date_time_field)))
        ∷ ("is_superuser", (column (boolean_field)))
        ∷ ("id", (primary_key_column (uuid_field)))
        ∷ ("name", (column (char_field 255)))
        ∷ ("phone_number", (unique_column (char_field 13)))
        ∷ ("is_seller", (column (boolean_field)))
        ∷ ("is_active", (column (boolean_field)))
        ∷ ("is_staff", (column (boolean_field)))
        ∷ ("created_at", (column (date_time_field)))
        ∷ ("groups", (column (many_to_many_field "auth.group")))
        ∷ ("user_permissions", (column (many_to_many_field "auth.permission")))
        ∷ [])
      ([])
    ∷ []

abbrev pub users_0002 : List Operation
users_0002 =
    add_field "user" "email" (unique_column (email_field 254))
    ∷ alter_field "user" "name" (column (char_field 255))
    ∷ []

abbrev pub users_0003 : List Operation
users_0003 = remove_field "user" "is_seller" ∷ []

abbrev pub users_0004 : List Operation
users_0004 =
    create_model "Address" "addresses"
      (("id", (primary_key_column (uuid_field)))
        ∷ ("label", (column (char_field 100)))
        ∷ ("contact_name", (column (char_field 255)))
        ∷ ("phone", (column (char_field 20)))
        ∷ ("address", (column (text_field)))
        ∷ ("created_at", (column (date_time_field)))
        ∷ ("user", (column (foreign_key user_model cascade)))
        ∷ [])
      ([])
    ∷ []
