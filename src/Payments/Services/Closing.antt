-- ===== src/Payments/Services/Closing.antt =====
-- `reopen_payment_after_verified_closure` and `consume_order_cancelled` of
-- apps/payments/services.py.
pub mod Settles
pub mod Stored
use vidalys_flow.Common.{ℕ, ◌+◌, Bool, true, false, ◌&&◌, Option, none, some, any, find, ◌==◌}
use vidalys_flow.Text.{Text, codes}
use vidalys_flow.Organizations.{User}
use vidalys_flow.Transaction.{◌>>=◌, ◌>>◌, pure, gets, unless, raise_if, or_raise}
use vidalys_flow.Idempotency.Command.{once}
use vidalys_flow.Orders.Tables.{is_confirmed, is_cancelled}
use vidalys_flow.Payments.Tables.{
  IntentStatus, pending, requires_attention, is_pending, AttemptStatus, is_open, is_closed_unpaid,
  Source, no_reason, verified_attempt_closed, order_cancelled_reason,
  order_cancelled_with_open_or_paid_payment, order_was_cancelled, PaymentIntent, PaymentAttempt,
  CommandResult,
}
use vidalys_flow.Payments.Errors.{PaymentService, invalid_payment, idempotency_conflict}
use vidalys_flow.Payments.Services.{
  was_cancelled, attention_required, checkout_reopened, payment_receipts, require_manager,
  lock_order, lock_intent, ensure_version, save_intent, save_attempt, history, record_change,
  existing_intent, result_of,
}
use vidalys_flow.Payments.Services.Checkout.{
  PaymentRequest, reopening_request, order_cancelled_request,
}
use vidalys_flow.Payments.Services.Leases.{cancelled_at_now}
use vidalys_flow.Payments.Services.Cancellation.{is_unsent}

abbrev pub is_reopenable : IntentStatus → Bool
is_reopenable IntentStatus.pending = true
is_reopenable IntentStatus.cancelled = true
is_reopenable IntentStatus.expired = true
is_reopenable _ = false

abbrev pub reopened : PaymentIntent → PaymentIntent
reopened intent = record intent {
  status = pending;
  attention_code = no_reason;
  cancelled_at = none;
  expired_at = none;
  version = intent.version + 1;
}

-- A history row is written where the status has changed.
abbrev pub reopening_history :
    Bool → PaymentIntent → IntentStatus → User → Text → PaymentService (Unit {0})
reopening_history true intent from_status actor command_id = pure tt
reopening_history false intent from_status actor command_id =
    history intent (some from_status) (some actor.id) command_id Source.command
      verified_attempt_closed

-- The newest attempt of the intent comes first.
unfoldable pub reopen_payment_after_verified_closure_work :
    ℕ → ℕ → User → ℕ → Text → PaymentService (PaymentIntent × CommandResult)
reopen_payment_after_verified_closure_work organization intent_id actor expected_version
      idempotency_key =
    do
      locked ← lock_intent organization intent_id
      let order = locked.0
      let intent = locked.1
      ensure_version intent expected_version
      unless (is_confirmed order.status) invalid_payment
      attempts ← gets (λ s. s.payments.attempts)
      raise_if (any (λ a. a.intent == intent.id && is_open a.status) attempts) invalid_payment
      last_attempt ← or_raise (find (λ a. a.intent == intent.id) attempts) invalid_payment
      unless (is_closed_unpaid last_attempt.status) invalid_payment
      unless (is_reopenable intent.status) invalid_payment
      let intent' = reopened intent
      save_intent intent'
      reopening_history (is_pending intent.status) intent' intent.status actor idempotency_key
      record_change intent' (some actor.id) checkout_reopened idempotency_key
      pure (intent', result_of intent' (some last_attempt))

unfoldable pub reopen_payment_after_verified_closure :
    (PaymentRequest → ℕ) → ℕ → ℕ → User → ℕ → Text → PaymentService PaymentIntent
reopen_payment_after_verified_closure payload_hash organization intent_id actor expected_version
      idempotency_key =
    do
      require_manager actor organization
      once payment_receipts (λ _. idempotency_conflict) organization
          (codes "reopen_payment_after_verified_closure") idempotency_key
          (payload_hash (reopening_request intent_id expected_version))
          (reopen_payment_after_verified_closure_work organization intent_id actor expected_version
            idempotency_key)
          existing_intent

-- What the cancellation of the order makes of the payment.
pub data Closure : Type 0 where
  closes needs_attention stays : Closure

-- By whether an attempt is open.
abbrev pub closure_of_intent : Bool → IntentStatus → Closure
closure_of_intent true status = needs_attention
closure_of_intent false IntentStatus.paid = needs_attention
closure_of_intent false IntentStatus.processing = needs_attention
closure_of_intent false IntentStatus.pending = closes
closure_of_intent false IntentStatus.awaiting_payment = closes
closure_of_intent false _ = stays

abbrev pub cancelled_with_order : PaymentAttempt → PaymentAttempt
cancelled_with_order attempt = record attempt {
  status = AttemptStatus.cancelled;
  error_code = order_was_cancelled;
  version = attempt.version + 1;
}

-- An open attempt that no worker sends is cancelled with the order.
abbrev pub close_unsent : Bool → PaymentAttempt → IntentStatus → PaymentService Closure
close_unsent true attempt status = do save_attempt (cancelled_with_order attempt); pure closes
close_unsent false attempt status = pure (closure_of_intent true status)

abbrev pub close_attempt : Option PaymentAttempt → IntentStatus → PaymentService Closure
close_attempt none status = pure (closure_of_intent false status)
close_attempt (some attempt) status = close_unsent (is_unsent attempt) attempt status

abbrev pub in_conflict : PaymentIntent → PaymentIntent
in_conflict intent = record intent {
  status = requires_attention;
  attention_code = order_cancelled_with_open_or_paid_payment;
  version = intent.version + 1;
}

abbrev pub close_payment : Closure → PaymentIntent → Text → PaymentService PaymentIntent
close_payment stays intent key = pure intent
close_payment closes intent key = do
  now ← gets (λ s. s.journal.now)
  let intent' = cancelled_at_now now intent
  save_intent intent'
  history intent' (some intent.status) none key Source.order_event order_cancelled_reason
  record_change intent' none was_cancelled key
  pure intent'
close_payment needs_attention intent key = do
  let intent' = in_conflict intent
  save_intent intent'
  history intent' (some intent.status) none key Source.order_event
      order_cancelled_with_open_or_paid_payment
  record_change intent' none attention_required key
  pure intent'

abbrev pub is_intent_of_order : ℕ → ℕ → PaymentIntent → Bool
is_intent_of_order organization order i = i.organization == organization && i.order == order

abbrev pub is_open_for : ℕ → PaymentAttempt → Bool
is_open_for intent a = a.intent == intent && is_open a.status

unfoldable pub consume_order_cancelled_work :
    ℕ → ℕ → Text → PaymentService (PaymentIntent × CommandResult)
consume_order_cancelled_work organization order_id key = do
  order ← lock_order organization order_id
  unless (is_cancelled order.status) invalid_payment
  intent ←
      or_raise (← gets (λ s. find (is_intent_of_order organization order.id) s.payments.intents))
        invalid_payment
  attempt ← gets (λ s. find (is_open_for intent.id) s.payments.attempts)
  closure ← close_attempt attempt intent.status
  intent' ← close_payment closure intent key
  pure (intent', result_of intent' attempt)

-- `sha256(f"{source_event_id}:{order_id}")` is a parameter.
unfoldable pub consume_order_cancelled :
    (ℕ → ℕ → Text) → (PaymentRequest → ℕ) → ℕ → ℕ → ℕ → PaymentService PaymentIntent
consume_order_cancelled event_digest payload_hash organization order_id source_event_id =
    once payment_receipts (λ _. idempotency_conflict) organization
      (codes "payment_consume_order_cancelled") (event_digest source_event_id order_id)
      (payload_hash (order_cancelled_request source_event_id order_id))
      (consume_order_cancelled_work organization order_id (event_digest source_event_id order_id))
      existing_intent
