-- ===== src/Tests/FulfillmentTests.antt =====
-- The commands of apps/fulfillment/services.py at a concrete database.
use vidalys_flow.Common.{
  ℕ, ◌≡◌, refl, true, none, some, List, [], ◌∷◌, All, map, find, replace, ◌==◌,
}
use vidalys_flow.Text.{codes, strip, lstrip, rstrip, is_space}
use vidalys_flow.Idempotency.{claim_command, insert_receipt, complete_command}
use vidalys_flow.Idempotency.Command.{claim, once}
use vidalys_flow.Fulfillment.Services.Commands.Replay.{transition_fulfillment_again}
use vidalys_flow.Platform.Tables.{OutboxEvent, OutboxStatus, enqueue_event, record_event}
use vidalys_flow.Transaction.{Outcome, ok, committed}
use vidalys_flow.Database.{Database}
use vidalys_flow.Organizations.{has_membership, active_membership_for}
use vidalys_flow.Orders.Tables.{Order, OrderItem, confirmed, Status}
use vidalys_flow.Fulfillment.Tables.{pickup, preparing, Fulfillment, CommandResult}
use vidalys_flow.Fulfillment.Errors.{FulfillmentError}
use vidalys_flow.Fulfillment.Transitions.{may_move}
use vidalys_flow.Fulfillment.Allocations.{
  Allocation, allocated, locked_rows, validate_each, lock_and_validate_allocations,
}
use vidalys_flow.Fulfillment.Allocations.Bounds.{IsCovered, lock_and_validate_allocations-IsCovered}
use vidalys_flow.Fulfillment.Services.{record_change, result_of, is_fulfillment, is_order}
use vidalys_flow.Fulfillment.Services.Events.Effects.{
  IsFollowed, cancel_from_order_event_work_effect,
}
use vidalys_flow.Fulfillment.Services.Events.{
  system_cancelled, cancel_from_order_event_work, cancel_from_order_event,
  consume_order_cancelled_event,
}
use vidalys_flow.Fulfillment.Services.Commands.{
  FulfillmentRequest, transition_fulfillment, moved, new_fulfillment, transition_fulfillment_work,
}
use vidalys_flow.Fulfillment.Services.Commands.Moves.{
  IsMoved, Locked, rows_of, transition_fulfillment_work_effect,
}
use vidalys_flow.Tests.Shop.{boss, item, order, shop}

abbrev batch : Fulfillment
batch =
    new_fulfillment 25 1 20 1 pickup
      (record { address = none; unit = some 7; unit_name = codes "Centro" }) boss

-- The order of the shop is confirmed, and half of its item is in a batch.
abbrev depot : Database
depot = record shop {
  orders = record (shop.orders) { orders = record order { status = confirmed } ∷ [] };
  fulfillment = record {
    fulfillments = batch ∷ [];
    items = record { organization = 1; fulfillment = 25; order_item = 21; quantity = 1000 } ∷ [];
    history = [];
    receipts = [];
  };
}

abbrev moving : Outcome Database FulfillmentError (Fulfillment × CommandResult)
moving = transition_fulfillment_work 1 25 boss preparing 1 (codes "k") [] depot

abbrev moved_batch : Fulfillment
moved_batch = moved preparing [] 1000 batch

moves : moving ≡ ok (moved_batch, result_of moved_batch) (committed moving depot)
unfolding transition_fulfillment_work record_change enqueue_event record_event
moves = refl

transition_fulfillment_work_effect_example :
    (before : Fulfillment) × (o : Order) × Locked 1 25 depot o before
    × (before.version ≡ 1)
    × (may_move before.method before.status preparing ≡ true)
    × IsMoved preparing [] 1000 before moved_batch
    × (result_of moved_batch ≡ result_of moved_batch)
    × (rows_of (committed moving depot) ≡ replace (λ g. g.id == 25) moved_batch (rows_of depot))
transition_fulfillment_work_effect_example =
    transition_fulfillment_work_effect 1 25 boss preparing 1 (codes "k") [] depot moves

abbrev half : List Allocation
half = record { order_item = 21; quantity = 1000 } ∷ []

halves : lock_and_validate_allocations 1 20 half none depot ≡ ok ((item, 1000) ∷ []) depot
unfolding lock_and_validate_allocations validate_each allocated locked_rows
halves = refl

lock_and_validate_allocations-IsCovered_example :
    (map {B = ℕ × ℕ} (λ (r : OrderItem × ℕ). ((r.0).id, r.1)) ((item, 1000) ∷ [])
      ≡ map (λ (a : Allocation). (a.order_item, a.quantity)) half)
    × (depot ≡ depot)
    × All (IsCovered 1 20 none depot half) ((item, 1000) ∷ [])
lock_and_validate_allocations-IsCovered_example =
    lock_and_validate_allocations-IsCovered 1 20 half none depot halves

-- A digest for the witness.
abbrev digest : FulfillmentRequest → ℕ
digest r = 0

abbrev sending : Outcome Database FulfillmentError Fulfillment
sending = transition_fulfillment digest 1 25 boss preparing 1 (codes "k") [] depot

sends : sending ≡ ok moved_batch (committed sending depot)
unfolding transition_fulfillment transition_fulfillment_work record_change once claim claim_command
    insert_receipt complete_command has_membership active_membership_for strip lstrip rstrip
    is_space enqueue_event record_event
sends = refl

transition_fulfillment_again_example :
    transition_fulfillment digest 1 25 boss preparing 1 (codes "k") [] (committed sending depot)
    ≡ ok moved_batch (committed sending depot)
transition_fulfillment_again_example =
    transition_fulfillment_again digest 1 25 boss preparing 1 (codes "k") [] depot moved_batch
      (committed sending depot) sends

-- The order of the batch is cancelled, and the event of it is consumed.
abbrev cancelled_depot : Database
cancelled_depot = record depot {
  orders = record (depot.orders) { orders = record order { status = Status.cancelled } ∷ [] };
}

abbrev order_event : OutboxEvent
order_event = record {
  id = 60;
  organization = 1;
  event_type = codes "order.cancelled";
  aggregate_type = codes "order";
  aggregate = 20;
  payload = record { order = 20; status = codes "cancelled"; version = 3 };
  status = OutboxStatus.pending;
  attempts = 0;
  available_at = 0;
  processed_at = none;
  last_error = [];
  idempotency_key = record {
    kind = codes "order";
    aggregate = 20;
    event = codes "order.cancelled";
    command = codes "c";
  };
}

abbrev consuming : Outcome Database FulfillmentError ℕ
consuming = consume_order_cancelled_event (λ a b. a ∷ b ∷ []) (λ r. 0) order_event cancelled_depot

-- One batch is cancelled, and the second run cancels nothing.
consumes :
    (consuming ≡ ok 1 (committed consuming cancelled_depot))
    × ((committed consuming cancelled_depot).fulfillment.fulfillments
        ≡ system_cancelled 1000 batch ∷ [])
    × (consume_order_cancelled_event
          (λ a b. a ∷ b ∷ [])
          (λ r. 0)
          order_event
          (committed consuming cancelled_depot)
        ≡ ok 0 (committed consuming cancelled_depot))
unfolding consume_order_cancelled_event cancel_from_order_event cancel_from_order_event_work
    record_change once claim claim_command insert_receipt complete_command strip lstrip rstrip
    is_space enqueue_event record_event
consumes = (refl, refl, refl)

abbrev voiding : Outcome Database FulfillmentError (Fulfillment × CommandResult)
voiding = cancel_from_order_event_work 1 25 (codes "v") cancelled_depot

voids :
    voiding
    ≡ ok
        (system_cancelled 1000 batch, result_of (system_cancelled 1000 batch))
        (committed voiding cancelled_depot)
unfolding cancel_from_order_event_work record_change enqueue_event record_event
voids = refl

cancel_from_order_event_work_effect_example :
    (o : Order) × (before : Fulfillment) × (find (is_fulfillment 1 25) (rows_of cancelled_depot)
      ≡ some before)
    × (find (is_order 1 before.order) cancelled_depot.orders.orders ≡ some o)
    × IsFollowed o before cancelled_depot
        (system_cancelled 1000 batch)
        (committed voiding cancelled_depot)
cancel_from_order_event_work_effect_example =
    cancel_from_order_event_work_effect 1 25 (codes "v") cancelled_depot
      (system_cancelled 1000 batch) (result_of (system_cancelled 1000 batch))
      (committed voiding cancelled_depot) voids
