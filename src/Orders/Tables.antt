-- ===== src/Orders/Tables.antt =====
-- The rows of apps/orders/models.py. Money is in cents and quantities are in thousandths.
use vidalys_flow.Common.{ℕ, Bool, true, false, Option, List}
use vidalys_flow.Text.{Text, codes}
use vidalys_flow.Catalog.{ContactKind, AddressFields}
use vidalys_flow.Idempotency.{Receipt}

pub data Status : Type 0 where
  draft confirmed cancelled : Status

abbrev pub status_text : Status → Text
status_text draft = codes "draft"
status_text confirmed = codes "confirmed"
status_text cancelled = codes "cancelled"

abbrev pub is_draft : Status → Bool
is_draft draft = true
is_draft _ = false

abbrev pub is_confirmed : Status → Bool
is_confirmed confirmed = true
is_confirmed _ = false

abbrev pub is_cancelled : Status → Bool
is_cancelled cancelled = true
is_cancelled _ = false

-- `_contact_snapshot`, without its version.
pub record ContactSnapshot : Type 0 where
  pub kind : ContactKind
  pub value : Text

-- The snapshot columns; `none` is the empty JSON object.
pub record Snapshots : Type 0 where
  pub customer_name : Text
  pub customer_document : Text
  pub customer_contact : Option ContactSnapshot
  pub shipping_address : Option AddressFields
  pub billing_address : Option AddressFields

pub record Order : Type 0 where
  pub id : ℕ
  pub organization : ℕ
  pub number : ℕ
  pub customer : ℕ
  pub status : Status
  pub channel : Text
  pub subtotal : ℕ
  pub discount_total : ℕ
  pub surcharge_total : ℕ
  pub total : ℕ
  pub snapshots : Snapshots
  pub version : ℕ
  pub created_by : ℕ
  pub confirmed_at : Option ℕ
  pub cancelled_at : Option ℕ
  pub cancel_reason : Text

pub record OrderItem : Type 0 where
  pub id : ℕ
  pub organization : ℕ
  pub order : ℕ
  pub position : ℕ
  pub product : Option ℕ
  pub variant : Option ℕ
  pub name_snapshot : Text
  pub variant_snapshot : Text
  pub sku_snapshot : Text
  pub unit_snapshot : Text
  pub quantity : ℕ
  pub unit_price : ℕ
  pub gross_total : ℕ
  pub discount_amount : ℕ
  pub surcharge_amount : ℕ
  pub surcharge_reason : Text
  pub total : ℕ
  pub notes : Text

pub record OrderStatusHistory : Type 0 where
  pub organization : ℕ
  pub order : ℕ
  pub from_status : Option Status
  pub to_status : Status
  pub actor : ℕ
  pub command_id : Text
  pub reason_provided : Bool

pub record OrderNumberSequence : Type 0 where
  pub organization : ℕ
  pub next_number : ℕ

-- The columns of a completed receipt.
pub record CommandResult : Type 0 where
  pub order : ℕ
  pub item : Option ℕ
  pub version : ℕ

pub record OrderTables : Type 0 where
  pub orders : List Order
  pub items : List OrderItem
  pub history : List OrderStatusHistory
  pub sequences : List OrderNumberSequence
  pub receipts : List (Receipt CommandResult)
