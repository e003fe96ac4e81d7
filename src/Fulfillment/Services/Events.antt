-- ===== src/Fulfillment/Services/Events.antt =====
-- The commands of apps/fulfillment/services.py that follow the event of a cancelled order:
-- `cancel_from_order_event` and `consume_order_cancelled_event`.
pub mod Effects
use vidalys_flow.Common.{
  ℕ, ◌+◌, Bool, true, false, not, ◌&&◌, Option, none, some, List, [], ◌∷◌, find, select, reverse,
  ◌==◌,
}
use vidalys_flow.Text.{Text, codes, text_eq}
use vidalys_flow.Platform.Tables.{OutboxEvent}
use vidalys_flow.Transaction.{◌>>=◌, ◌>>◌, pure, gets, unless, or_raise}
use vidalys_flow.Idempotency.{Receipt, is_for}
use vidalys_flow.Idempotency.Command.{once, claim}
use vidalys_flow.Orders.Tables.{Order, is_cancelled}
use vidalys_flow.Fulfillment.Tables.{
  Status, completed, cancelled, Fulfillment, FulfillmentStatusHistory, CommandResult,
}
use vidalys_flow.Fulfillment.Errors.{
  FulfillmentService, organization_mismatch, invalid_fulfillment, idempotency_conflict,
}
use vidalys_flow.Fulfillment.Services.{
  fulfillment_receipts, is_order, lock_fulfillment, set_tables, save_fulfillment, add_history,
  record_change, moved_to, existing_fulfillment, result_of,
}
use vidalys_flow.Fulfillment.Services.Commands.{stamp}

-- `status in (COMPLETED, CANCELLED)`
abbrev pub is_final : Status → Bool
is_final completed = true
is_final cancelled = true
is_final _ = false

abbrev pub is_order_cancelled : Order → Bool
is_order_cancelled order = is_cancelled order.status

-- `_lock_order_then_fulfillment` with `require_confirmed=False`.
abbrev pub lock_any_order_then_fulfillment : ℕ → ℕ → FulfillmentService (Order × Fulfillment)
lock_any_order_then_fulfillment organization id = do
  reference ← lock_fulfillment organization id
  order ←
      or_raise (← gets (λ s. find (is_order organization reference.order) s.orders.orders))
        organization_mismatch
  locked ← lock_fulfillment organization id
  unless (locked.order == order.id) organization_mismatch
  pure (order, locked)

abbrev pub system_cancelled : ℕ → Fulfillment → Fulfillment
system_cancelled now f = record f {
  status = cancelled;
  version = f.version + 1;
  timestamps = stamp cancelled now f.timestamps;
  cancel_reason = codes "Pedido cancelado";
  system_cancelled = true;
}

abbrev pub system_history : ℕ → Fulfillment → Text → FulfillmentStatusHistory
system_history organization before command_id = record {
  organization = organization;
  fulfillment = before.id;
  from_status = some before.status;
  to_status = cancelled;
  actor = none;
  command_id = command_id;
  reason_provided = true;
  system_generated = true;
}

abbrev pub cancel_unless_final :
    Bool → ℕ → Order → Fulfillment → Text → FulfillmentService Fulfillment
cancel_unless_final true organization order f key = pure f
cancel_unless_final false organization order f key = do
  unless (is_order_cancelled order) invalid_fulfillment
  now ← gets (λ s. s.journal.now)
  let f' = system_cancelled now f
  save_fulfillment f'
  add_history (system_history organization f key)
  record_change f' none (moved_to cancelled) key
  pure f'

unfoldable pub cancel_from_order_event_work :
    ℕ → ℕ → Text → FulfillmentService (Fulfillment × CommandResult)
cancel_from_order_event_work organization id key = do
  locked ← lock_any_order_then_fulfillment organization id
  f ← cancel_unless_final (is_final (locked.1).status) organization locked.0 locked.1 key
  pure (f, result_of f)

-- What the digest of a command is taken of.
pub data EventRequest : Type 0 where
  cancel_request consume_request : ℕ → ℕ → EventRequest

-- `sha256(f"{source_event_id}:{fulfillment.id}")` is a parameter.
module _ (event_digest : ℕ → ℕ → Text) (payload_hash : EventRequest → ℕ) where
  unfoldable pub cancel_from_order_event : ℕ → ℕ → ℕ → FulfillmentService Fulfillment
  cancel_from_order_event organization id source_event_id =
      once fulfillment_receipts (λ _. idempotency_conflict) organization
        (codes "cancel_from_order_event") (event_digest source_event_id id)
        (payload_hash (cancel_request source_event_id id))
        (cancel_from_order_event_work organization id (event_digest source_event_id id))
        existing_fulfillment

  -- One turn of the loop after the other; the count is of those that were not final before.
  abbrev pub cancel_each : ℕ → ℕ → List Fulfillment → FulfillmentService ℕ
  cancel_each organization event_id [] = pure 0
  cancel_each organization event_id (f ∷ fs) = do
    cancel_from_order_event organization f.id event_id
    n ← cancel_each organization event_id fs
    pure (elim (is_final f.status) [ true ↦ n | false ↦ n + 1 ])

  abbrev pub is_cancelled_order : ℕ → ℕ → Order → Bool
  is_cancelled_order organization id o = is_order organization id o && is_order_cancelled o

  -- The receipt is marked as completed, without a result.
  abbrev pub mark_completed :
      Receipt CommandResult → List (Receipt CommandResult) → List (Receipt CommandResult)
  mark_completed receipt [] = []
  mark_completed receipt (r ∷ rows) =
      elim (is_for receipt.organization receipt.operation receipt.key r) [
        | true ↦ record r { completed = true } ∷ rows
        | false ↦ r ∷ mark_completed receipt rows
      ]

  abbrev pub consume_if_new : OutboxEvent → Receipt CommandResult × Bool → FulfillmentService ℕ
  consume_if_new event (receipt, false) = pure 0
  consume_if_new event (receipt, true) = do
    order ←
        or_raise
          (← gets
            (λ s. find (is_cancelled_order event.organization event.payload.order) s.orders.orders))
          invalid_fulfillment
    fulfillments ← gets (λ s. reverse (
        select (λ f. f.organization == event.organization && f.order == order.id)
          s.fulfillment.fulfillments))
    count ← cancel_each event.organization event.id fulfillments
    set_tables (λ t. record t { receipts = mark_completed receipt t.receipts })
    pure count

  -- Identifiers grow with the creation of rows, the newest of which comes first. Every event of the
  -- model has an organization.
  unfoldable pub consume_order_cancelled_event : OutboxEvent → FulfillmentService ℕ
  consume_order_cancelled_event event = do
    unless (text_eq event.event_type (codes "order.cancelled")) invalid_fulfillment
    claimed ←
        claim fulfillment_receipts (λ _. idempotency_conflict) event.organization
          (codes "consume_order_cancelled_event") (event.id ∷ [])
          (payload_hash (consume_request event.id event.payload.order))
    consume_if_new event claimed
