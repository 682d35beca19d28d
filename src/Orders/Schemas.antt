-- ===== src/Orders/Schemas.antt =====
-- src/apps/orders/schemas.py: the payloads, and the bounds that turn bad input into a 422.
use Prim.Native.String.{count}
use boutique_backend.Prelude.{
  ℕ, ◌*◌, String, Bool, ◌&&◌, Option, none, some, List, [], ◌∷◌, leb, if◌then◌else◌,
}
use boutique_backend.Prelude.Int.{ℤ, pos, negsuc}
use boutique_backend.Models.{OrderItem}

-- A bag item as the JSON body has it.
pub record RawItem : Type 0 where
  pub product_id : ℕ
  pub option_ids : List ℕ
  pub quantity : ℤ

-- `OrderItemInSchema`
pub record OrderItemIn : Type 0 where
  pub product_id : ℕ
  pub option_ids : List ℕ
  pub quantity : ℕ

pub record RawOrder : Type 0 where
  pub idempotency_key : String
  pub contact_name : String
  pub phone : String
  pub delivery_address : String
  pub note : String
  pub items : List RawItem

-- `OrderCreateSchema`
pub record OrderCreate : Type 0 where
  pub idempotency_key : String
  pub contact_name : String
  pub phone : String
  pub delivery_address : String
  pub note : String
  pub items : List OrderItemIn

-- `Field(ge=1)`
abbrev at_least_one : ℤ → Option ℕ
at_least_one (pos n) = if leb 1 n then some n else none
at_least_one (negsuc n) = none

abbrev read_item : RawItem → Option OrderItemIn
read_item r = elim (at_least_one r.quantity) [
  | none ↦ none
  | some q ↦ some (record { product_id = r.product_id; option_ids = r.option_ids; quantity = q })
]

abbrev pub read_items : List RawItem → Option (List OrderItemIn)
read_items [] = some []
read_items (r ∷ rs) =
    let rest = read_items rs in
    elim (read_item r) [
      | none ↦ none
      | some i ↦ elim rest [ none ↦ none | some is ↦ some (i ∷ is) ]
    ]

-- `Field(max_length=n)`
abbrev pub fits : ℕ → String → Bool
fits n s = leb (count s) n

abbrev fields_fit : RawOrder → Bool
fields_fit r =
    fits 255 r.idempotency_key
    && (fits 255 r.contact_name
        && (fits 20 r.phone && (fits 1000 r.delivery_address && fits 500 r.note)))

-- Pydantic's validation of the body: `none` is a 422.
unfoldable pub read_order : RawOrder → Option OrderCreate
read_order r =
    if fields_fit r
    then elim (read_items r.items) [
      | none ↦ none
      | some is ↦ some (record {
        idempotency_key = r.idempotency_key;
        contact_name = r.contact_name;
        phone = r.phone;
        delivery_address = r.delivery_address;
        note = r.note;
        items = is;
      })
    ]
    else none

-- `OrderLineSchema.resolve_line_total`
unfoldable pub line_total : OrderItem → ℕ
line_total i = i.unit_price * i.quantity
