-- ===== src/Samples.antt =====
-- Test data: one shop with two products, as the fixtures of src/conftest.py and the app tests set
-- it up.
use Prim.Native.Char.{code}
use boutique_backend.Orders.Schemas.{OrderCreate}
use boutique_backend.Accounts.{Auth}
use boutique_backend.Accounts.Phone.{Classes}
use boutique_backend.Prelude.{
  leb, ◌&&◌, ◌||◌, ◌==◌, ℕ_eq, string_eq, ℕ, ◌+◌, true, false, none, some, [], ◌∷◌,
}
use boutique_backend.Models.{
  Boutique, Membership, owner, staff, User, Category, Product, ProductImage, VariantGroup,
  VariantOption, Catalog, Db, Order, OrderItem, new,
}
use boutique_backend.Api.{World, Runtime, PushCall}
use boutique_backend.Push.{Gateway, Delivery, delivered, web_push_exception}

abbrev pub runtime : Runtime
runtime = record { uuid4 = λ n. n + 1000; now = λ n. n + 50 }

-- The first call finds the browser gone, all others are delivered.
abbrev pub first_gone : ℕ → PushCall → Delivery
first_gone n call = elim n [ Prim.Native.Nat.zero ↦ web_push_exception (some 410) | _ ↦ delivered ]

abbrev pub gateway : Gateway
gateway = record {
  webpush = first_gone;
  vapid_public_key = "pub-key-123";
  vapid_private_key = "private";
  vapid_subject = "mailto:hello@zita.example";
}

abbrev pub zita : Boutique
zita = record { id = 1; slug = "zita"; name = "Zita Boutique"; created_at = 0 }

abbrev pub other_shop : Boutique
other_shop = record { id = 2; slug = "kigali"; name = "Kigali Heels"; created_at = 0 }

abbrev pub customer : User
customer = record {
  id = 10;
  name = "Aline";
  email = "customer@example.com";
  phone_number = "+250788123456";
  password = "hash";
  is_active = true;
  is_staff = false;
  is_superuser = false;
  created_at = 1;
}

abbrev pub seller : User
seller = record customer {
  id = 11;
  name = "Seller";
  email = "seller@example.com";
  phone_number = "+250788999888";
}

abbrev pub clerk : User
clerk = record customer {
  id = 12;
  name = "Staff";
  email = "staff@example.com";
  phone_number = "+250788777666";
}

abbrev pub owns_zita : Membership
owns_zita = record { id = 20; user = 11; boutique = 1; role = owner; created_at = 2 }

abbrev pub works_at_zita : Membership
works_at_zita = record { id = 21; user = 12; boutique = 1; role = staff; created_at = 3 }

abbrev pub dresses : Category
dresses = record {
  id = 30;
  store = 1;
  name = "Dresses";
  slug = "dresses";
  position = 0;
  created_at = 4;
}

abbrev pub gown : Product
gown = record {
  id = 40;
  store = 1;
  category = 30;
  name = "Gown";
  slug = "gown";
  description = "";
  price = 30000;
  is_visible = true;
  is_featured = false;
  created_at = 5;
  updated_at = 5;
}

abbrev pub heels : Product
heels = record gown {
  id = 41;
  name = "Heels";
  slug = "heels";
  price = 12000;
  is_visible = false;
  created_at = 6;
}

abbrev pub gown_photo : ProductImage
gown_photo = record {
  id = 50;
  store = 1;
  product = 40;
  url = "https://cdn.example/x.jpg";
  alt = "";
  position = 0;
}

abbrev pub colour : VariantGroup
colour = record { id = 60; store = 1; product = 40; name = "Colour"; position = 0 }

abbrev pub size : VariantGroup
size = record { id = 61; store = 1; product = 40; name = "Size"; position = 1 }

abbrev pub red : VariantOption
red = record {
  id = 70;
  store = 1;
  group = 60;
  value = "Red";
  hex = "#C0392B";
  image = none;
  position = 0;
}

abbrev pub medium : VariantOption
medium = record {
  id = 71;
  store = 1;
  group = 61;
  value = "M";
  hex = "";
  image = none;
  position = 1;
}

abbrev pub stock : Catalog
stock = record {
  categories = dresses ∷ [];
  products = gown ∷ heels ∷ [];
  images = gown_photo ∷ [];
  groups = colour ∷ size ∷ [];
  options = red ∷ medium ∷ [];
}

abbrev pub shop : Db
shop = record {
  boutiques = zita ∷ other_shop ∷ [];
  memberships = owns_zita ∷ works_at_zita ∷ [];
  users = customer ∷ seller ∷ clerk ∷ [];
  addresses = [];
  catalog = stock;
  orders = [];
  items = [];
  favorites = [];
  subscriptions = [];
}

abbrev pub opening : World
opening = record { db = shop; draws = 0; pushes = []; log = [] }

abbrev pub bag : OrderCreate
bag = record {
  idempotency_key = "k1";
  contact_name = "Aline";
  phone = "+250788112233";
  delivery_address = "Kigali, KG 11 Ave";
  note = "";
  items = record { product_id = 40; option_ids = 70 ∷ 71 ∷ []; quantity = 2 } ∷ [];
}

abbrev pub placed : Order
placed = record {
  id = 1000;
  store = 1;
  customer = 10;
  status = new;
  contact_name = "Aline";
  phone = "+250788112233";
  delivery_address = "Kigali, KG 11 Ave";
  note = "";
  total = 60000;
  idempotency_key = "k1";
  created_at = 50;
  updated_at = 50;
}

abbrev pub line : OrderItem
line = record {
  id = 1001;
  store = 1;
  order = 1000;
  product = some 40;
  quantity = 2;
  unit_price = 30000;
  name_snapshot = "Gown";
  image_url_snapshot = "https://cdn.example/x.jpg";
  options = ("Colour", "Red") ∷ ("Size", "M") ∷ [];
}

abbrev pub after : World
after = record opening { db = record shop { orders = placed ∷ []; items = line ∷ [] }; draws = 2 }

abbrev pub auth : Auth
auth = record {
  iexact = λ a b. a == b;
  normalize_email = λ e. e;
  validate_password = λ p u. none;
  make_password = λ p. p;
  check_token = λ u t. true;
  decode_uid = λ s. some s;
  read_uuid = λ s. none;
  mails = λ n u. true;
}

abbrev pub ascii : Classes
ascii = record {
  is_space = λ c. code c == 32 || code c == 10;
  is_digit = λ c. leb 48 (code c) && leb (code c) 57;
}
