-- ===== src/Orders/Services.antt =====
-- apps/orders/services.py: the steps that its commands share. The commands are in the children.
pub mod Surcharge
pub mod Catalog
pub mod Lifecycle
pub mod Items
pub mod Frame
pub mod Effects
pub mod Totals
pub mod Confirmation
pub mod Replay
use vidalys_flow.Common.{
  ℕ, suc, ◌+◌, ◌-◌, ◌≡◌, refl, Bool, true, false, ◌&&◌, ◌||◌, not, Option, none, some, List, [],
  ◌∷◌, map, find, replace, select, any, leb, ltb, ◌==◌, if◌then◌else◌,
}
use vidalys_flow.Text.{Text, codes, text_eq}
use vidalys_flow.Numeric.{ℤ, pos, negsuc}
use vidalys_flow.Organizations.{User, Directory, has_membership, has_manager_role}
use vidalys_flow.Catalog.{Customer}
use vidalys_flow.Platform.Tables.{Journal, EventPayload, OutboxKey, enqueue_event, record_event}
use vidalys_flow.Transaction.{
  ok, ◌>>=◌, ◌>>◌, pure, raise, gets, modify, unless, raise_if, or_raise,
}
use vidalys_flow.Idempotency.{Receipt}
use vidalys_flow.Idempotency.Command.{ReceiptTable}
use vidalys_flow.Database.{Database}
use vidalys_flow.Orders.Calculations.{Amount, ItemAmounts, OrderAmounts, calculate_order}
use vidalys_flow.Orders.Calculations
use vidalys_flow.Orders.Tables.{
  Status, draft, confirmed, cancelled, status_text, is_draft, Order, OrderItem, OrderStatusHistory,
  CommandResult, OrderTables,
}
use vidalys_flow.Orders.Errors.{
  OrderError, OrderService, order_permission_denied, organization_mismatch, order_not_editable,
  version_conflict, result_missing, confirmation_blocked, amount_error, integrity_error,
}

-- The events of apps/orders/events.py.
pub data OrderEvent : Type 0 where
  created customer_changed item_added item_updated item_removed was_confirmed was_cancelled :
      OrderEvent

abbrev pub event_name : OrderEvent → Text
event_name created = codes "order.created"
event_name customer_changed = codes "order.customer_changed"
event_name item_added = codes "order.item_added"
event_name item_updated = codes "order.item_updated"
event_name item_removed = codes "order.item_removed"
event_name was_confirmed = codes "order.confirmed"
event_name was_cancelled = codes "order.cancelled"

-- The receipts of the orders inside the database.
abbrev pub order_receipts : ReceiptTable Database CommandResult
order_receipts = record {
  rows = λ s. s.orders.receipts;
  store = λ t s. record s { orders = record (s.orders) { receipts = t } };
  rows-store = λ t s. refl;
  store-rows = λ s. refl;
  store-store = λ t u s. refl;
}

pub data Action : Type 0 where
  manage confirm adjust cancel : Action

-- The policies of apps/orders/policies.py.
abbrev pub permits : Action → User → ℕ → Directory → Bool
permits manage = has_membership
permits confirm = has_membership
permits adjust = has_manager_role
permits cancel = has_manager_role

abbrev pub require_permission : User → ℕ → Action → OrderService (Unit {0})
require_permission actor organization action = do
  allowed ← gets (λ s. permits action actor organization s.directory)
  unless allowed order_permission_denied

abbrev pub is_some {ℓ} : {A : Type ℓ} → Option A → Bool
is_some none = false
is_some (some a) = true

abbrev pub require_customer : ℕ → Customer → OrderService (Unit {0})
require_customer organization customer = do
  unless (customer.organization == organization) organization_mismatch
  raise_if (is_some customer.merged_into) confirmation_blocked

abbrev pub is_order : ℕ → ℕ → Order → Bool
is_order organization id o = o.organization == organization && o.id == id

abbrev pub lock_order : ℕ → ℕ → OrderService Order
lock_order organization id = do
  or_raise (← gets (λ s. find (is_order organization id) s.orders.orders)) organization_mismatch

abbrev pub ensure_draft : Order → OrderService (Unit {0})
ensure_draft order = unless (is_draft order.status) order_not_editable

abbrev pub ensure_version : Order → ℕ → OrderService (Unit {0})
ensure_version order expected_version = unless (order.version == expected_version) version_conflict

abbrev pub set_orders : List Order → Database → Database
set_orders rows s = record s { orders = record (s.orders) { orders = rows } }

-- `order.save(...)`: the row is locked, so its other columns are those of `order`.
abbrev pub save_order : Order → OrderService (Unit {0})
save_order order =
    modify (λ s. set_orders (replace (λ o. o.id == order.id) order s.orders.orders) s)

abbrev pub finish_mutation : Order → OrderService Order
finish_mutation order = do
  let order' = record order { version = order.version + 1 }
  save_order order'
  pure order'

abbrev pub audit : Order → User → OrderEvent → OrderService (Unit {0})
audit order actor action = modify (λ s. record s {
  journal =
      record_event order.organization (some actor.id) (event_name action) (codes "order") order.id
        order.version s.journal;
})

abbrev pub order_payload : Order → EventPayload
order_payload order = record {
  order = order.id;
  status = status_text order.status;
  version = order.version;
}

abbrev pub order_key : ℕ → OrderEvent → Text → OutboxKey
order_key id event command_id = record {
  kind = codes "order";
  aggregate = id;
  event = event_name event;
  command = command_id;
}

abbrev pub outbox : Order → OrderEvent → Text → OrderService (Unit {0})
outbox order event command_id = modify (λ s. record s {
  journal =
      enqueue_event order.organization (event_name event) (codes "order") order.id
        (order_payload order) (order_key order.id event command_id) s.journal;
})

-- The uniqueness of (order, to_status) in the history.
abbrev pub same_status : Status → Status → Bool
same_status draft draft = true
same_status confirmed confirmed = true
same_status cancelled cancelled = true
same_status _ _ = false

abbrev pub add_history : OrderStatusHistory → OrderService (Unit {0})
add_history h = do
  rows ← gets (λ s. s.orders.history)
  raise_if (any (λ r. r.order == h.order && same_status r.to_status h.to_status) rows)
      integrity_error
  modify (λ s. record s { orders = record (s.orders) { history = h ∷ rows } })

-- How `create_order`, `confirm_order` and `cancel_order` end: the history, the audit trail, the
-- outbox.
unfoldable pub record_change :
    OrderStatusHistory → Order → User → OrderEvent → Text → OrderService (Unit {0})
record_change h order actor event command_id = do
  add_history h
  audit order actor event
  outbox order event command_id

-- `_existing_result`, without an item and with one.
abbrev pub result_order : Receipt CommandResult → Database → Option Order
result_order receipt s = elim receipt.result [
  | none ↦ none
  | some r ↦ find (is_order receipt.organization r.order) s.orders.orders
]

abbrev pub existing_order : Receipt CommandResult → OrderService Order
existing_order receipt = do or_raise (← gets (result_order receipt)) result_missing

abbrev pub same_id : ℕ → Option ℕ → Bool
same_id id none = false
same_id id (some i) = i == id

abbrev pub result_item : Receipt CommandResult → Database → Option OrderItem
result_item receipt s = elim receipt.result [
  | none ↦ none
  | some r ↦
      find
        (λ i. i.organization == receipt.organization && i.order == r.order && same_id i.id r.item)
        s.orders.items
]

abbrev pub existing_item : Receipt CommandResult → OrderService OrderItem
existing_item receipt = do or_raise (← gets (result_item receipt)) result_missing

-- What the calculations raise goes through.
abbrev pub calculated : {A : Type 0} → Amount A → OrderService A
calculated (Calculations.valued a) = pure a
calculated (Calculations.refused e) = raise (amount_error e)

abbrev pub item_amounts : OrderItem → ItemAmounts
item_amounts i = record {
  gross_total = i.gross_total;
  discount_amount = i.discount_amount;
  surcharge_amount = i.surcharge_amount;
}

abbrev pub items_of : ℕ → List OrderItem → List OrderItem
items_of order = select (λ i. i.order == order)

-- The columns of an order under its check constraints: a negative total is refused.
abbrev pub with_totals : Order → OrderAmounts → ℤ → OrderService Order
with_totals order t (negsuc n) = raise integrity_error
with_totals order t (pos total) = do
  unless (leb t.discount_total t.subtotal) integrity_error
  pure (record order {
    subtotal = t.subtotal;
    discount_total = t.discount_total;
    surcharge_total = t.surcharge_total;
    total = total;
  })

unfoldable pub recalculate : Order → OrderService Order
recalculate order = do
  items ← gets (λ s. items_of order.id s.orders.items)
  totals ← calculated (calculate_order (map item_amounts items))
  order' ← with_totals order totals totals.total
  save_order order'
  pure order'

abbrev pub result_of : Order → CommandResult
result_of order = record { order = order.id; item = none; version = order.version }

-- What `payload_hash` digests: the payload of each command.
pub data Request : Type 0 where
  create_order_request : ℕ → Text → Request
  change_customer_request : ℕ → ℕ → ℕ → Request
  add_item_request :
      ℕ → ℕ → Option ℕ → Option ℕ → Text → Text → ℕ → ℕ → ℕ → ℕ → Text → Text → Request
  update_item_request :
      ℕ → ℕ → ℕ → Option ℤ → Option ℤ → Option ℤ → Option ℤ → Option Text → Option Text → Request
  remove_item_request : ℕ → ℕ → ℕ → Request
  confirm_order_request : ℕ → ℕ → Request
  cancel_order_request : ℕ → Text → ℕ → Request
