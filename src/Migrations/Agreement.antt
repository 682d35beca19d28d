-- ===== src/Migrations/Agreement.antt =====
-- The unique constraints that the services' INSERTs are checked against are those that the migrations give
-- the tables.
use boutique_backend.Prelude.{
  ℕ, ◌≡◌, String, Bool, true, false, ◌&&◌, ◌||◌, none, some, List, [], ◌∷◌, ◌++◌, ◌==◌, ℕ_eq,
  string_eq, arith, eq_iff, find?,
}
use boutique_backend.Prelude.Dict.{Dict, lookup}
use boutique_backend.Models.{
  User, Category, Product, ProductImage, VariantGroup, VariantOption, Order, Favorite,
  PushSubscription,
}
use boutique_backend.Orders.{clash_order}
use boutique_backend.Favorites.{clash_favorite}
use boutique_backend.Push.{clash_subscription}
use boutique_backend.Accounts.{clash_user}
use boutique_backend.Catalog.Creation.{
  clash_category, clash_product, clash_image, clash_group, clash_option,
}
use boutique_backend.Migrations.{Operation, same_model, apply, migrate, unique_sets}
use boutique_backend.Migrations.Accounts.{
  boutiques_0001, users_0001, users_0002, users_0003, users_0004,
}
use boutique_backend.Migrations.Stock.{products_0001}
use boutique_backend.Migrations.Trade.{orders_0001, favorites_0001, push_0001}

-- All migrations, each after those that it depends on.
abbrev pub all_migrations : List Operation
all_migrations =
    users_0001 ++ users_0002 ++ users_0003 ++ users_0004 ++ boutiques_0001 ++ products_0001
    ++ orders_0001 ++ favorites_0001 ++ push_0001

-- What a column holds, as far as a constraint compares it.
pub data Value : Type 0 where
  id_value : ℕ → Value
  text_value : String → Value

abbrev pub same_value : Value → Value → Bool
same_value (id_value m) (id_value n) = m == n
same_value (text_value s) (text_value t) = s == t
same_value _ _ = false

abbrev pub same_column : String → Dict Value → Dict Value → Bool
same_column name a b = elim (lookup name a) [
  | none ↦ false
  | some x ↦ elim (lookup name b) [ none ↦ false | some y ↦ same_value x y ]
]

abbrev pub same_columns : List String → Dict Value → Dict Value → Bool
same_columns [] a b = true
same_columns (name ∷ names) a b = same_column name a b && same_columns names a b

-- Two rows clash if they share all the columns of a set that is unique.
abbrev pub clash_on : List (List String) → Dict Value → Dict Value → Bool
clash_on [] a b = false
clash_on (set ∷ sets) a b = same_columns set a b || clash_on sets a b

-- The unique sets of a model after the migrations.
unfoldable pub uniques_of : String → List (List String)
uniques_of model = elim (migrate all_migrations []) [
  | none ↦ []
  | some tables ↦ elim (find? (λ t. same_model t.model model) tables) [
    | none ↦ []
    | some t ↦ unique_sets t
  ]
]

-- The tables that the services insert into.
pub data Kind : Type 0 where
  users categories products images groups options orders favorites subscriptions : Kind

abbrev pub Row : Kind → Type 0
Row users = User
Row categories = Category
Row products = Product
Row images = ProductImage
Row groups = VariantGroup
Row options = VariantOption
Row orders = Order
Row favorites = Favorite
Row subscriptions = PushSubscription

abbrev pub model_name : Kind → String
model_name users = "User"
model_name categories = "Category"
model_name products = "Product"
model_name images = "ProductImage"
model_name groups = "VariantGroup"
model_name options = "VariantOption"
model_name orders = "Order"
model_name favorites = "Favorite"
model_name subscriptions = "PushSubscription"

-- The test in front of an INSERT.
abbrev pub clash : (k : Kind) → Row k → Row k → Bool
clash users = clash_user
clash categories = clash_category
clash products = clash_product
clash images = clash_image
clash groups = clash_group
clash options = clash_option
clash orders = clash_order
clash favorites = clash_favorite
clash subscriptions = clash_subscription

-- The columns of a row that can be in a constraint, by the names of the migrations.
abbrev pub columns : (k : Kind) → Row k → Dict Value
columns users u =
    ("id", id_value u.id)
    ∷ ("email", text_value u.email)
    ∷ ("phone_number", text_value u.phone_number)
    ∷ ("name", text_value u.name)
    ∷ []
columns categories c =
    ("id", id_value c.id)
    ∷ ("store", id_value c.store)
    ∷ ("name", text_value c.name)
    ∷ ("slug", text_value c.slug)
    ∷ []
columns products p =
    ("id", id_value p.id)
    ∷ ("store", id_value p.store)
    ∷ ("category", id_value p.category)
    ∷ ("name", text_value p.name)
    ∷ ("slug", text_value p.slug)
    ∷ []
columns images i =
    ("id", id_value i.id)
    ∷ ("store", id_value i.store)
    ∷ ("product", id_value i.product)
    ∷ ("url", text_value i.url)
    ∷ []
columns groups g =
    ("id", id_value g.id)
    ∷ ("store", id_value g.store)
    ∷ ("product", id_value g.product)
    ∷ ("name", text_value g.name)
    ∷ []
columns options o =
    ("id", id_value o.id)
    ∷ ("store", id_value o.store)
    ∷ ("group", id_value o.group)
    ∷ ("value", text_value o.value)
    ∷ ("hex", text_value o.hex)
    ∷ []
columns orders o =
    ("id", id_value o.id)
    ∷ ("store", id_value o.store)
    ∷ ("customer", id_value o.customer)
    ∷ ("idempotency_key", text_value o.idempotency_key)
    ∷ ("phone", text_value o.phone)
    ∷ []
columns favorites f =
    ("id", id_value f.id)
    ∷ ("customer", id_value f.customer)
    ∷ ("store", id_value f.store)
    ∷ ("product", id_value f.product)
    ∷ []
columns subscriptions s =
    ("id", id_value s.id)
    ∷ ("user", id_value s.user)
    ∷ ("store", id_value s.store)
    ∷ ("endpoint", text_value s.endpoint)
    ∷ ("auth", text_value s.auth)
    ∷ []

-- Whatever two rows of a table hold, the test that stands in front of an INSERT refuses them together exactly
-- if they share all the columns of a key, a unique column or a unique constraint that the migrations, run in
-- order, leave on that table.
pub clash_lem :
    (k : Kind) (a b : Row k)
    → clash k a b ≡ clash_on (uniques_of (model_name k)) (columns k a) (columns k b)
unfolding uniques_of migrate apply unique_sets
clash_lem users a b = ground (arith, eq_iff a.email b.email, eq_iff a.phone_number b.phone_number)
clash_lem categories a b = ground arith
clash_lem products a b = ground arith
clash_lem images a b = ground arith
clash_lem groups a b = ground arith
clash_lem options a b = ground arith
clash_lem orders a b = ground arith
clash_lem favorites a b = ground arith
clash_lem subscriptions a b = ground arith
