-- ===== src/Tests/PaymentTests.antt =====
-- The services of apps/payments at a concrete database.
use vidalys_flow.Common.{inl, inr, ◌≡◌, ◌==◌, ◌&&◌, find, refl, false, some, [], ◌∷◌, arith}
use vidalys_flow.Text.{codes, strip, rstrip, lstrip, is_space}
use vidalys_flow.Idempotency.{claim_command, insert_receipt, complete_command}
use vidalys_flow.Idempotency.Command.{claim, once}
use vidalys_flow.Platform.Tables.{OutboxEvent, enqueue_event, record_event}
use vidalys_flow.Transaction.{Outcome, ok, committed}
use vidalys_flow.Database.{Database}
use vidalys_flow.Organizations.{has_membership, active_membership_for, has_manager_role}
use vidalys_flow.Orders.Tables.{confirmed, cancelled}
use vidalys_flow.Payments.Tables.{CommandResult, PaymentIntent, PaymentAttempt}
use vidalys_flow.Payments.Errors.{PaymentError}
use vidalys_flow.Payments.Services.{
  checkout_requested, event_name, lock_intent, save_intent, save_attempt_or, audit, history,
  record_change, fresh_id, result_of,
}
use vidalys_flow.Payments.Services.Checkout.{
  new_intent, create_payment_intent, create_payment_intent_work,
}
use vidalys_flow.Payments.Services.Leases.{leased, cancelled_at_now, claim_requested_checkout}
use vidalys_flow.Payments.Services.Leases.Exclusion.{claim_requested_checkout_excludes}
use vidalys_flow.Payments.Services.Closing.{consume_order_cancelled_work}
use vidalys_flow.Payments.Services.Closing.Settles.{IsSettled}
use vidalys_flow.Payments.Services.Closing.Stored.{consume_order_cancelled_work_settles}
use vidalys_flow.Payments.Tasks.{dispatch_checkout_events, dispatch_checkout_cancellation_events}
use vidalys_flow.Payments.Tasks.Idle.{dispatch_checkout_events_idle}
use vidalys_flow.Payments.Tasks.Resting.{dispatch_checkout_cancellation_events_rest}
use vidalys_flow.Payments.Soundness.{IsSound}
use vidalys_flow.Payments.Steps.{Steps, created, none_left, and_then}
use vidalys_flow.Payments.Steps.Soundness.{Steps-IsSound}
use vidalys_flow.Payments.Steps.TaskRuns.{
  dispatch_checkout_events-Steps, dispatch_checkout_cancellation_events-Steps,
}
use vidalys_flow.Tests.Shop.{boss, order}
use vidalys_flow.Tests.Till.{
  active_attempt, asked_event, attempt, cancelling, intent, primitives, provider_with, till,
  waiting,
}

abbrev opening : Outcome Database PaymentError PaymentIntent
opening = create_payment_intent primitives.payload_hash 1 20 boss (codes "k") till

abbrev opened : Database
opened = committed opening till

opens : opening ≡ ok (new_intent 30 (record order { status = confirmed }) boss) opened
unfolding create_payment_intent create_payment_intent_work once claim claim_command complete_command
    insert_receipt history fresh_id record_change audit enqueue_event record_event has_membership
    active_membership_for has_manager_role strip rstrip lstrip is_space
opens = refl

Steps-IsSound_example : IsSound opened
Steps-IsSound_example =
    Steps-IsSound primitives till opened (tt, tt, tt)
      (and_then
        (created 1 20 boss (codes "k") (new_intent 30 (record order { status = confirmed }) boss)
          opens)
        (none_left opened))

waiting-IsSound : IsSound waiting
waiting-IsSound = (
  (
    record {
      currency_brl = refl;
      amount_positive = omega arith;
      version_positive = omega arith;
      timestamp = refl;
      attention = refl;
    },
    tt,
  ),
  (refl, tt),
  (refl, tt),
)

abbrev claiming : Outcome Database PaymentError PaymentAttempt
claiming = claim_requested_checkout 51 waiting

claims : claiming ≡ ok (leased 30 1000 attempt) (committed claiming waiting)
unfolding claim_requested_checkout lock_intent fresh_id save_attempt_or
claims = refl

-- A minute later.
abbrev later : Database
later = record (committed claiming waiting) {
  journal = record ((committed claiming waiting).journal) { now = 1060 };
}

claim_requested_checkout_excludes_example : ¬ (claim_requested_checkout 51 later ≡ ok attempt later)
claim_requested_checkout_excludes_example =
    claim_requested_checkout_excludes 51 waiting (leased 30 1000 attempt)
      (committed claiming waiting) later attempt later claims refl refl (omega arith)

-- The order of the payment is cancelled.
abbrev void : Database
void = record waiting {
  orders = record (waiting.orders) { orders = record order { status = cancelled } ∷ [] };
}

abbrev closing : Outcome Database PaymentError (PaymentIntent × CommandResult)
closing = consume_order_cancelled_work 1 20 (codes "e") void

closes_payment :
    closing
    ≡ ok
        (cancelled_at_now 1000 intent, result_of (cancelled_at_now 1000 intent) (some attempt))
        (committed closing void)
unfolding consume_order_cancelled_work save_attempt_or save_intent history record_change audit
    enqueue_event record_event
closes_payment = refl

consume_order_cancelled_work_settles_example :
    (find (λ x. x.organization == 1 && x.order == 20) (committed closing void).payments.intents
      ≡ some (cancelled_at_now 1000 intent))
    × IsSettled (cancelled_at_now 1000 intent) (committed closing void).payments.attempts
consume_order_cancelled_work_settles_example =
    consume_order_cancelled_work_settles 1 20 (codes "e") void (cancelled_at_now 1000 intent)
      (result_of (cancelled_at_now 1000 intent) (some attempt)) (committed closing void)
      waiting-IsSound closes_payment

sending-Steps :
    Steps primitives waiting
      (dispatch_checkout_events primitives.urlparse primitives.payload_hash false
        (λ a. provider_with (codes "pending"))
        20
        waiting).0
sending-Steps =
    dispatch_checkout_events-Steps primitives false (λ a. provider_with (codes "pending")) 20
      waiting

cancelling-Steps :
    Steps primitives cancelling
      (dispatch_checkout_cancellation_events false
        (λ a. provider_with (codes "cancelled"))
        20
        cancelling).0
cancelling-Steps =
    dispatch_checkout_cancellation_events-Steps primitives false
      (λ a. provider_with (codes "cancelled")) 20 cancelling

-- The requested attempt waits for its next try, and its event is in the outbox.
abbrev waiting_attempt : PaymentAttempt
waiting_attempt = record attempt { available_at = some 2000 }

abbrev request_event : OutboxEvent
request_event = record asked_event {
  event_type = event_name checkout_requested;
  aggregate_type = codes "payment_intent";
  aggregate = 50;
}

abbrev idle : Database
idle = record waiting {
  journal = record (waiting.journal) { outbox = request_event ∷ [] };
  payments = record (waiting.payments) { attempts = waiting_attempt ∷ [] };
}

dispatch_checkout_events_idle_example :
    dispatch_checkout_events primitives.urlparse primitives.payload_hash false
      (λ a. provider_with (codes "pending"))
      20
      idle
    ≡ (idle, inr 0)
dispatch_checkout_events_idle_example =
    dispatch_checkout_events_idle primitives.urlparse primitives.payload_hash false
      (λ a. provider_with (codes "pending")) 20 idle
      (inr (inr (inr (inr (2000, refl, omega arith)), tt)), tt)

-- The active attempt that is to be cancelled waits for its next try.
abbrev resting : Database
resting = record cancelling {
  payments = record (cancelling.payments) {
    attempts = record active_attempt { available_at = some 2000 } ∷ [];
  };
}

dispatch_checkout_cancellation_events_rest_example :
    (dispatch_checkout_cancellation_events false
      (λ a. provider_with (codes "cancelled"))
      20
      resting).0
    ≡ resting
dispatch_checkout_cancellation_events_rest_example =
    dispatch_checkout_cancellation_events_rest false (λ a. provider_with (codes "cancelled")) 20
      resting (inr (inr (inr (inr (refl, inr (inl refl, (2000, refl, omega arith)))), tt)), tt)
