-- ===== src/Fulfillment/Tables.antt =====
-- The rows of apps/fulfillment/models.py. Quantities are in thousandths.
use vidalys_flow.Common.{ℕ, Bool, true, false, Option, List}
use vidalys_flow.Text.{Text, codes}
use vidalys_flow.Catalog.{AddressFields}
use vidalys_flow.Idempotency.{Receipt}

pub data Method : Type 0 where
  delivery pickup : Method

pub data Status : Type 0 where
  draft preparing ready in_transit completed cancelled : Status

abbrev pub status_text : Status → Text
status_text draft = codes "draft"
status_text preparing = codes "preparing"
status_text ready = codes "ready"
status_text in_transit = codes "in_transit"
status_text completed = codes "completed"
status_text cancelled = codes "cancelled"

abbrev pub is_cancelled : Status → Bool
is_cancelled cancelled = true
is_cancelled _ = false

abbrev pub is_draft : Status → Bool
is_draft draft = true
is_draft _ = false

-- The timestamp columns of the transitions.
pub record Timestamps : Type 0 where
  pub preparing_at : Option ℕ
  pub ready_at : Option ℕ
  pub dispatched_at : Option ℕ
  pub completed_at : Option ℕ
  pub cancelled_at : Option ℕ

pub record Fulfillment : Type 0 where
  pub id : ℕ
  pub organization : ℕ
  pub order : ℕ
  pub sequence : ℕ
  pub method : Method
  pub status : Status
  pub destination : Option AddressFields
  pub pickup_unit : Option ℕ
  pub pickup_unit_name : Text
  pub version : ℕ
  pub created_by : ℕ
  pub timestamps : Timestamps
  pub cancel_reason : Text
  pub system_cancelled : Bool

pub record FulfillmentItem : Type 0 where
  pub organization : ℕ
  pub fulfillment : ℕ
  pub order_item : ℕ
  pub quantity : ℕ

pub record FulfillmentStatusHistory : Type 0 where
  pub organization : ℕ
  pub fulfillment : ℕ
  pub from_status : Option Status
  pub to_status : Status
  pub actor : Option ℕ
  pub command_id : Text
  pub reason_provided : Bool
  pub system_generated : Bool

-- The columns of a completed receipt.
pub record CommandResult : Type 0 where
  pub fulfillment : ℕ
  pub version : ℕ

pub record FulfillmentTables : Type 0 where
  pub fulfillments : List Fulfillment
  pub items : List FulfillmentItem
  pub history : List FulfillmentStatusHistory
  pub receipts : List (Receipt CommandResult)
