-- ===== src/Fulfillment/Services/Commands.antt =====
-- The commands create_fulfillment, replace_allocations and transition_fulfillment of
-- apps/fulfillment/services.py.
pub mod Moves
pub mod Replay
use vidalys_flow.Common.{
  ℕ, suc, ◌+◌, Bool, true, false, ◌&&◌, ◌||◌, not, Option, none, some, List, [], ◌∷◌, ◌++◌, map,
  find, exclude, select, max_of, ◌==◌, if◌then◌else◌,
}
use vidalys_flow.Text.{Text, codes, strip, is_empty}
use vidalys_flow.Organizations.{User}
use vidalys_flow.Catalog.{AddressFields}
use vidalys_flow.Transaction.{◌>>=◌, ◌>>◌, pure, raise, gets, modify, unless, raise_if, or_raise}
use vidalys_flow.Idempotency.Command.{once}
use vidalys_flow.Database.{Database}
use vidalys_flow.Orders.Tables.{Order, OrderItem}
use vidalys_flow.Fulfillment.Tables.{
  Method, delivery, pickup, Status, draft, preparing, ready, in_transit, completed, cancelled,
  status_text, is_draft, is_cancelled, Timestamps, Fulfillment, FulfillmentItem,
  FulfillmentStatusHistory, CommandResult, FulfillmentTables,
}
use vidalys_flow.Fulfillment.Errors.{
  FulfillmentService, organization_mismatch, invalid_fulfillment, idempotency_conflict,
  reason_required, integrity_error,
}
use vidalys_flow.Fulfillment.Transitions.{ensure_transition}
use vidalys_flow.Fulfillment.Allocations.{
  RequestedAllocation, Allocation, canonical_allocations, lock_and_validate_allocations,
}
use vidalys_flow.Fulfillment.Services.{
  was_created, was_updated, moved_to, fulfillment_receipts, require_permission, is_order,
  lock_order, lock_fulfillment, lock_order_then_fulfillment, ensure_version, delivery_snapshot,
  pickup_unit_of, set_tables, save_fulfillment, add_history, record_change, existing_fulfillment,
  result_of,
}

-- Where a batch goes: the address of a delivery, or the unit of a pickup with its name, which a
-- constraint of the table wants not to be empty.
pub record Destination : Type 0 where
  pub address : Option AddressFields
  pub unit : Option ℕ
  pub unit_name : Text

abbrev pub destination_of : ℕ → Order → Method → Option ℕ → FulfillmentService Destination
destination_of organization order delivery unit = do
  address ← delivery_snapshot order
  pure (record { address = some address; unit = none; unit_name = [] })
destination_of organization order pickup unit = do
  locked ← pickup_unit_of organization unit
  raise_if (is_empty locked.name) integrity_error
  pure (record { address = none; unit = some locked.id; unit_name = locked.name })

abbrev pub fresh_id : FulfillmentService ℕ
fresh_id = do
  id ← gets (λ s. s.journal.next_id)
  modify (λ s. record s { journal = record (s.journal) { next_id = suc id } })
  pure id

-- `(order.fulfillments.aggregate(Max("sequence")) or 0) + 1`
abbrev pub next_sequence : ℕ → List Fulfillment → ℕ
next_sequence order_id rows =
    max_of (λ (f : Fulfillment). f.sequence) (select (λ f. f.order == order_id) rows) + 1

abbrev pub item_rows : ℕ → ℕ → List (OrderItem × ℕ) → List FulfillmentItem
item_rows organization id = map (λ a. record {
  organization = organization;
  fulfillment = id;
  order_item = (a.0).id;
  quantity = a.1;
})

abbrev pub new_fulfillment : ℕ → ℕ → ℕ → ℕ → Method → Destination → User → Fulfillment
new_fulfillment id organization order_id sequence method destination actor = record {
  id = id;
  organization = organization;
  order = order_id;
  sequence = sequence;
  method = method;
  status = draft;
  destination = destination.address;
  pickup_unit = destination.unit;
  pickup_unit_name = destination.unit_name;
  version = 1;
  created_by = actor.id;
  timestamps = record {
    preparing_at = none;
    ready_at = none;
    dispatched_at = none;
    completed_at = none;
    cancelled_at = none;
  };
  cancel_reason = [];
  system_cancelled = false;
}

unfoldable pub create_fulfillment_work :
    ℕ
    → ℕ
    → User
    → Method
    → Option ℕ
    → List Allocation
    → Text
    → FulfillmentService (Fulfillment × CommandResult)
create_fulfillment_work organization order_id actor method pickup_unit requested idempotency_key =
    do
      order ← lock_order organization order_id
      allocations ← lock_and_validate_allocations organization order.id requested none
      destination ← destination_of organization order method pickup_unit
      sequence ← gets (λ s. next_sequence order.id s.fulfillment.fulfillments)
      id ← fresh_id
      let fulfillment = new_fulfillment id organization order.id sequence method destination actor
      set_tables (λ t. record t { fulfillments = fulfillment ∷ t.fulfillments })
      set_tables (λ t. record t { items = t.items ++ item_rows organization id allocations })
      add_history (record {
        organization = organization;
        fulfillment = id;
        from_status = none;
        to_status = draft;
        actor = some actor.id;
        command_id = idempotency_key;
        reason_provided = false;
        system_generated = false;
      })
      record_change fulfillment (some actor.id) was_created idempotency_key
      pure (fulfillment, result_of fulfillment)

unfoldable pub replace_allocations_work :
    ℕ → ℕ → User → List Allocation → ℕ → Text → FulfillmentService (Fulfillment × CommandResult)
replace_allocations_work organization id actor requested expected_version idempotency_key = do
  locked ← lock_order_then_fulfillment organization id
  let order = locked.0
  let fulfillment = locked.1
  unless (is_draft fulfillment.status) invalid_fulfillment
  ensure_version fulfillment expected_version
  allocations ← lock_and_validate_allocations organization order.id requested (some fulfillment.id)
  set_tables (λ t. record t {
    items =
        exclude (λ (r : FulfillmentItem). r.fulfillment == fulfillment.id) t.items
        ++ item_rows organization fulfillment.id allocations;
  })
  let fulfillment' = record fulfillment { version = fulfillment.version + 1 }
  save_fulfillment fulfillment'
  record_change fulfillment' (some actor.id) was_updated idempotency_key
  pure (fulfillment', result_of fulfillment')

-- The column of `TIMESTAMP_FIELDS` that a transition sets.
abbrev pub stamp : Status → ℕ → Timestamps → Timestamps
stamp draft now t = t
stamp preparing now t = record t { preparing_at = some now }
stamp ready now t = record t { ready_at = some now }
stamp in_transit now t = record t { dispatched_at = some now }
stamp completed now t = record t { completed_at = some now }
stamp cancelled now t = record t { cancelled_at = some now }

abbrev pub moved : Status → Text → ℕ → Fulfillment → Fulfillment
moved target reason now fulfillment = record fulfillment {
  status = target;
  version = fulfillment.version + 1;
  timestamps = stamp target now fulfillment.timestamps;
  cancel_reason = if is_cancelled target then reason else fulfillment.cancel_reason;
}

-- The row of the history, with the status that the batch had.
abbrev pub move_history : ℕ → Fulfillment → Status → User → Text → Text → FulfillmentStatusHistory
move_history organization before target actor command_id reason = record {
  organization = organization;
  fulfillment = before.id;
  from_status = some before.status;
  to_status = target;
  actor = some actor.id;
  command_id = command_id;
  reason_provided = not (is_empty reason);
  system_generated = false;
}

unfoldable pub transition_fulfillment_work :
    ℕ → ℕ → User → Status → ℕ → Text → Text → FulfillmentService (Fulfillment × CommandResult)
transition_fulfillment_work organization id actor target expected_version idempotency_key reason =
    do
      locked ← lock_order_then_fulfillment organization id
      let fulfillment = locked.1
      ensure_version fulfillment expected_version
      ensure_transition fulfillment.method fulfillment.status target
      now ← gets (λ s. s.journal.now)
      let fulfillment' = moved target reason now fulfillment
      save_fulfillment fulfillment'
      add_history (move_history organization fulfillment target actor idempotency_key reason)
      record_change fulfillment' (some actor.id) (moved_to target) idempotency_key
      pure (fulfillment', result_of fulfillment')

-- What the digest of a command is taken of.
pub data FulfillmentRequest : Type 0 where
  create_request : ℕ → Method → Option ℕ → List Allocation → FulfillmentRequest
  replace_request : ℕ → ℕ → List Allocation → FulfillmentRequest
  transition_request : ℕ → Status → ℕ → Text → FulfillmentRequest

module _ (payload_hash : FulfillmentRequest → ℕ) where
  unfoldable pub create_fulfillment :
      ℕ
      → ℕ
      → User
      → Method
      → List RequestedAllocation
      → Text
      → Option ℕ
      → FulfillmentService Fulfillment
  create_fulfillment organization order_id actor method requested idempotency_key pickup_unit = do
    require_permission actor organization false
    allocations ← canonical_allocations requested
    once fulfillment_receipts (λ _. idempotency_conflict) organization (codes "create_fulfillment")
        idempotency_key (payload_hash (create_request order_id method pickup_unit allocations))
        (create_fulfillment_work organization order_id actor method pickup_unit allocations
          idempotency_key)
        existing_fulfillment

  unfoldable pub replace_allocations :
      ℕ → ℕ → User → List RequestedAllocation → ℕ → Text → FulfillmentService Fulfillment
  replace_allocations organization id actor requested expected_version idempotency_key = do
    require_permission actor organization false
    allocations ← canonical_allocations requested
    once fulfillment_receipts (λ _. idempotency_conflict) organization
        (codes "replace_fulfillment_allocations") idempotency_key
        (payload_hash (replace_request id expected_version allocations))
        (replace_allocations_work organization id actor allocations expected_version
          idempotency_key)
        existing_fulfillment

  unfoldable pub transition_fulfillment :
      ℕ → ℕ → User → Status → ℕ → Text → Text → FulfillmentService Fulfillment
  transition_fulfillment organization id actor target expected_version idempotency_key reason = do
    require_permission actor organization (is_cancelled target)
    let given = strip reason
    raise_if (is_cancelled target && is_empty given) reason_required
    raise_if (not (is_cancelled target) && not (is_empty given)) invalid_fulfillment
    once fulfillment_receipts (λ _. idempotency_conflict) organization
        (codes "transition_fulfillment_" ++ status_text target) idempotency_key
        (payload_hash (transition_request id target expected_version given))
        (transition_fulfillment_work organization id actor target expected_version idempotency_key
          given)
        existing_fulfillment
