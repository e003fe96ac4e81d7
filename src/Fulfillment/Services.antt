-- ===== src/Fulfillment/Services.antt =====
-- The steps that the commands of apps/fulfillment/services.py share.
pub mod Commands
pub mod Events
use vidalys_flow.Common.{
  ℕ, ◌+◌, refl, Bool, true, false, ◌&&◌, ◌++◌, Option, none, some, List, [], ◌∷◌, any, find,
  replace, ◌==◌,
}
use vidalys_flow.Text.{Text, codes, is_empty, text_eq}
use vidalys_flow.Organizations.{User, OrganizationUnit, has_membership, has_manager_role}
use vidalys_flow.Catalog.{AddressFields}
use vidalys_flow.Platform.Tables.{enqueue_event, record_event}
use vidalys_flow.Transaction.{◌>>=◌, ◌>>◌, pure, raise, gets, modify, unless, raise_if, or_raise}
use vidalys_flow.Idempotency.{Receipt}
use vidalys_flow.Idempotency.Command.{ReceiptTable}
use vidalys_flow.Database.{Database}
use vidalys_flow.Orders.Tables.{Order, is_confirmed}
use vidalys_flow.Fulfillment.Tables.{
  Method, delivery, pickup, Status, draft, preparing, ready, in_transit, completed, cancelled,
  status_text, Fulfillment, FulfillmentItem, FulfillmentStatusHistory, CommandResult,
  FulfillmentTables, Timestamps,
}
use vidalys_flow.Fulfillment.Errors.{
  FulfillmentError, FulfillmentService, fulfillment_permission_denied, organization_mismatch,
  invalid_fulfillment, version_conflict, idempotency_conflict, integrity_error,
}

-- The events of apps/fulfillment/events.py.
pub data FulfillmentEvent : Type 0 where
  was_created was_updated : FulfillmentEvent
  moved_to : Status → FulfillmentEvent

abbrev pub event_name : FulfillmentEvent → Text
event_name was_created = codes "fulfillment.created"
event_name was_updated = codes "fulfillment.updated"
event_name (moved_to in_transit) = codes "fulfillment.dispatched"
event_name (moved_to status) = codes "fulfillment." ++ status_text status

abbrev pub fulfillment_receipts : ReceiptTable Database CommandResult
fulfillment_receipts = record {
  rows = λ s. s.fulfillment.receipts;
  store = λ t s. record s { fulfillment = record (s.fulfillment) { receipts = t } };
  rows-store = λ t s. refl;
  store-rows = λ s. refl;
  store-store = λ t u s. refl;
}

-- `_require_permission`; a cancellation wants a manager.
abbrev pub require_permission : User → ℕ → Bool → FulfillmentService (Unit {0})
require_permission actor organization true = do
  may ← gets (λ s. has_manager_role actor organization s.directory)
  unless may fulfillment_permission_denied
require_permission actor organization false = do
  may ← gets (λ s. has_membership actor organization s.directory)
  unless may fulfillment_permission_denied

abbrev pub is_order : ℕ → ℕ → Order → Bool
is_order organization id o = o.organization == organization && o.id == id

abbrev pub is_fulfillment : ℕ → ℕ → Fulfillment → Bool
is_fulfillment organization id f = f.organization == organization && f.id == id

abbrev pub lock_order : ℕ → ℕ → FulfillmentService Order
lock_order organization order_id = do
  order ←
      or_raise (← gets (λ s. find (is_order organization order_id) s.orders.orders))
        organization_mismatch
  unless (is_confirmed order.status) invalid_fulfillment
  pure order

abbrev pub lock_fulfillment : ℕ → ℕ → FulfillmentService Fulfillment
lock_fulfillment organization id = do
  or_raise (← gets (λ s. find (is_fulfillment organization id) s.fulfillment.fulfillments))
      organization_mismatch

-- `_lock_order_then_fulfillment` with its default `require_confirmed=True`. The second query finds
-- the row of the first, so that its order is the one that was locked.
abbrev pub lock_order_then_fulfillment : ℕ → ℕ → FulfillmentService (Order × Fulfillment)
lock_order_then_fulfillment organization id = do
  reference ← lock_fulfillment organization id
  order ← lock_order organization reference.order
  locked ← lock_fulfillment organization id
  unless (locked.order == order.id) organization_mismatch
  pure (order, locked)

abbrev pub ensure_version : Fulfillment → ℕ → FulfillmentService (Unit {0})
ensure_version fulfillment expected = unless (fulfillment.version == expected) version_conflict

-- `_delivery_snapshot`: the snapshot of an order is empty or has exactly the fields of an address.
abbrev pub delivery_snapshot : Order → FulfillmentService AddressFields
delivery_snapshot order = or_raise order.snapshots.shipping_address invalid_fulfillment

abbrev pub pickup_unit_of : ℕ → Option ℕ → FulfillmentService OrganizationUnit
pickup_unit_of organization none = raise organization_mismatch
pickup_unit_of organization (some id) = do
  or_raise
      (← gets (λ s.
        find (λ u. u.organization == organization && u.id == id && u.is_active) s.directory.units))
      organization_mismatch

abbrev pub set_tables : (FulfillmentTables → FulfillmentTables) → FulfillmentService (Unit {0})
set_tables f = modify (λ s. record s { fulfillment = f s.fulfillment })

abbrev pub save_fulfillment : Fulfillment → FulfillmentService (Unit {0})
save_fulfillment f =
    set_tables (λ t. record t { fulfillments = replace (λ g. g.id == f.id) f t.fulfillments })

abbrev pub audit : Fulfillment → Option ℕ → FulfillmentEvent → FulfillmentService (Unit {0})
audit f actor action = modify (λ s. record s {
  journal =
      record_event f.organization actor (event_name action) (codes "fulfillment") f.id f.version
        s.journal;
})

abbrev pub outbox : Fulfillment → FulfillmentEvent → Text → FulfillmentService (Unit {0})
outbox f event command_id = modify (λ s. record s {
  journal =
      enqueue_event f.organization (event_name event) (codes "fulfillment") f.id
        (record { order = f.order; status = status_text f.status; version = f.version })
        (record {
          kind = codes "fulfillment";
          aggregate = f.id;
          event = event_name event;
          command = command_id;
        })
        s.journal;
})

-- The uniqueness of (fulfillment, to_status) in the history.
abbrev pub add_history : FulfillmentStatusHistory → FulfillmentService (Unit {0})
add_history h = do
  rows ← gets (λ s. s.fulfillment.history)
  raise_if
      (any
        (λ r.
          r.fulfillment == h.fulfillment
          && text_eq (status_text r.to_status) (status_text h.to_status))
        rows)
      integrity_error
  set_tables (λ t. record t { history = h ∷ t.history })

unfoldable pub record_change :
    Fulfillment → Option ℕ → FulfillmentEvent → Text → FulfillmentService (Unit {0})
record_change f actor event command_id = do audit f actor event; outbox f event command_id

abbrev pub result_fulfillment : Receipt CommandResult → Database → Option Fulfillment
result_fulfillment receipt s = elim receipt.result [
  | none ↦ none
  | some r ↦ find (is_fulfillment receipt.organization r.fulfillment) s.fulfillment.fulfillments
]

-- `_existing_result`
abbrev pub existing_fulfillment : Receipt CommandResult → FulfillmentService Fulfillment
existing_fulfillment receipt = do
  or_raise (← gets (result_fulfillment receipt)) idempotency_conflict

abbrev pub result_of : Fulfillment → CommandResult
result_of f = record { fulfillment = f.id; version = f.version }
