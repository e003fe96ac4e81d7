-- ===== src/Payments/Services/Cancellation.antt =====
-- The cancellation of a hosted checkout in apps/payments/services.py:
-- `request_hosted_checkout_cancellation`, `complete_cancellation_event_for_terminal_attempt` and
-- `apply_verified_checkout_cancellation`.
use vidalys_flow.Common.{ℕ, ◌+◌, Bool, true, false, not, ◌&&◌, Option, none, some, find, ◌==◌}
use vidalys_flow.Text.{Text, codes, text_eq}
use vidalys_flow.Organizations.{User}
use vidalys_flow.Platform.Tables.{OutboxEvent, is_key, enqueue_event}
use vidalys_flow.Transaction.{◌>>=◌, ◌>>◌, pure, gets, modify, unless, raise_if, or_raise}
use vidalys_flow.Idempotency.Command.{once}
use vidalys_flow.Orders.Tables.{is_cancelled}
use vidalys_flow.Payments.Tables.{
  IntentStatus, intent_status_text, AttemptStatus, is_open, is_requested, Source, no_error,
  cancelled_before_dispatch, cancellation_pending, PaymentIntent, PaymentAttempt, CommandResult,
}
use vidalys_flow.Payments.Errors.{
  PaymentService, invalid_payment, organization_mismatch, idempotency_conflict, does_not_exist,
}
use vidalys_flow.Payments.Providers.{ProviderResource}
use vidalys_flow.Payments.Services.{
  PaymentEvent, cancellation_requested, was_cancelled, status_changed, attention_required,
  event_name, event_key, payment_receipts, require_manager, lock_intent, ensure_version,
  save_intent, save_attempt, audit, existing_attempt, result_of, same_token, is_some, retry_delay,
}
use vidalys_flow.Payments.Services.Checkout.{PaymentRequest, cancellation_request, versioned}
use vidalys_flow.Payments.Services.Leases.{is_attempt, is_attempt_of}
use vidalys_flow.Payments.Services.Providing.{account_of, apply_resource, announce}

-- `_cancellation_outbox`: the event of an attempt, which is the earlier one where the key is known.
unfoldable pub cancellation_outbox :
    PaymentIntent → PaymentAttempt → Text → PaymentService OutboxEvent
cancellation_outbox intent attempt command_id = do
  let key = event_key intent cancellation_requested command_id
  modify (λ s. record s {
    journal =
        enqueue_event intent.organization (event_name cancellation_requested)
          (codes "payment_attempt") attempt.id
          (record {
            order = intent.order;
            status = intent_status_text intent.status;
            version = intent.version;
          })
          key s.journal;
  })
  or_raise (← gets (λ s. find (is_key intent.organization key) s.journal.outbox)) does_not_exist

abbrev pub is_cancellation_pending : PaymentAttempt → Bool
is_cancellation_pending attempt =
    is_some attempt.cancellation_event && not (is_some attempt.cancellation_completed_at)

abbrev pub cancelled_locally : PaymentAttempt → PaymentAttempt
cancelled_locally attempt = record attempt {
  status = AttemptStatus.cancelled;
  lease_token = none;
  lease_expires_at = none;
  available_at = none;
  error_code = cancelled_before_dispatch;
  version = attempt.version + 1;
}

abbrev pub awaiting_cancellation : ℕ → PaymentAttempt → PaymentAttempt
awaiting_cancellation event attempt = record attempt {
  cancellation_event = some event;
  cancellation_completed_at = none;
}

-- Whether no worker has begun to send the attempt.
abbrev pub is_unsent : PaymentAttempt → Bool
is_unsent attempt = is_requested attempt.status && not (is_some attempt.lease_token)

abbrev pub close_or_ask :
    Bool → PaymentIntent → PaymentAttempt → Text → PaymentService PaymentAttempt
close_or_ask true intent attempt command_id = do
  save_attempt (cancelled_locally attempt)
  pure (cancelled_locally attempt)
close_or_ask false intent attempt command_id = do
  event ← cancellation_outbox intent attempt command_id
  save_attempt (awaiting_cancellation event.id attempt)
  pure (awaiting_cancellation event.id attempt)

abbrev pub is_open_of : ℕ → ℕ → PaymentAttempt → Bool
is_open_of organization intent a =
    a.organization == organization && a.intent == intent && is_open a.status

unfoldable pub request_hosted_checkout_cancellation_work :
    ℕ → ℕ → User → ℕ → Text → PaymentService (PaymentAttempt × CommandResult)
request_hosted_checkout_cancellation_work organization intent_id actor expected_version
      idempotency_key =
    do
      locked ← lock_intent organization intent_id
      let intent = locked.1
      ensure_version intent expected_version
      attempt ←
          or_raise (← gets (λ s. find (is_open_of organization intent.id) s.payments.attempts))
            invalid_payment
      raise_if (is_cancellation_pending attempt) invalid_payment
      attempt' ← close_or_ask (is_unsent attempt) intent attempt idempotency_key
      let intent' = versioned intent
      save_intent intent'
      audit intent' (some actor.id) cancellation_requested
      pure (attempt', result_of intent' (some attempt'))

unfoldable pub request_hosted_checkout_cancellation :
    (PaymentRequest → ℕ) → ℕ → ℕ → User → ℕ → Text → PaymentService PaymentAttempt
request_hosted_checkout_cancellation payload_hash organization intent_id actor expected_version
      idempotency_key =
    do
      require_manager actor organization
      once payment_receipts (λ _. idempotency_conflict) organization
          (codes "request_hosted_checkout_cancellation") idempotency_key
          (payload_hash (cancellation_request intent_id expected_version))
          (request_hosted_checkout_cancellation_work organization intent_id actor expected_version
            idempotency_key)
          existing_attempt

abbrev pub same_event : Option ℕ → ℕ → Bool
same_event none event = false
same_event (some e) event = e == event

-- How the completion ends, by whether it is done already and whether the attempt is closed.
abbrev pub complete_if_closed : Bool → Bool → PaymentAttempt → PaymentService Bool
complete_if_closed true is_closed attempt = pure true
complete_if_closed false false attempt = pure false
complete_if_closed false true attempt = do
  now ← gets (λ s. s.journal.now)
  save_attempt (record attempt { cancellation_completed_at = some now })
  pure true

abbrev pub complete_found : Option PaymentAttempt → PaymentService Bool
complete_found none = pure false
complete_found (some attempt) =
    complete_if_closed (is_some attempt.cancellation_completed_at) (not (is_open attempt.status))
      attempt

abbrev pub complete_of : ℕ → ℕ → Option PaymentAttempt → PaymentService Bool
complete_of attempt_id event_id none = pure false
complete_of attempt_id event_id (some reference) = do
  locked ← lock_intent reference.organization reference.intent
  attempt ← gets (λ s.
      find
        (λ a.
          a.id == attempt_id
          && a.intent == (locked.1).id
          && same_event a.cancellation_event event_id)
        s.payments.attempts)
  complete_found attempt

unfoldable pub complete_cancellation_event_for_terminal_attempt : ℕ → ℕ → PaymentService Bool
complete_cancellation_event_for_terminal_attempt attempt_id event_id = do
  reference ← gets (λ s. find (is_attempt attempt_id) s.payments.attempts)
  complete_of attempt_id event_id reference

-- Neither awaiting a payment nor processing one.
abbrev pub is_complete : IntentStatus → Bool
is_complete IntentStatus.awaiting_payment = false
is_complete IntentStatus.processing = false
is_complete _ = true

abbrev pub after_cancellation : Bool → ℕ → PaymentAttempt → PaymentAttempt
after_cancellation true now attempt = record attempt {
  lease_token = none;
  lease_expires_at = none;
  available_at = none;
  error_code = no_error;
  cancellation_completed_at = some now;
}
after_cancellation false now attempt = record attempt {
  lease_token = none;
  lease_expires_at = none;
  available_at = some (now + retry_delay attempt.dispatch_attempts);
  error_code = cancellation_pending;
  cancellation_completed_at = none;
}

abbrev pub cancellation_change : IntentStatus → PaymentEvent
cancellation_change IntentStatus.requires_attention = attention_required
cancellation_change IntentStatus.cancelled = was_cancelled
cancellation_change _ = status_changed

unfoldable pub apply_verified_checkout_cancellation :
    ℕ → PaymentAttempt → ProviderResource → Text → Option ℕ → PaymentService (PaymentAttempt × Bool)
apply_verified_checkout_cancellation organization reference resource idempotency_key lease_token =
    do
      locked ← lock_intent organization reference.intent
      let order = locked.0
      let intent = locked.1
      attempt ←
          or_raise
            (← gets
              (λ s. find (is_attempt_of organization intent.id reference.id) s.payments.attempts))
            invalid_payment
      unless (same_token attempt.lease_token lease_token) invalid_payment
      unless (text_eq resource.external_resource_id attempt.external_resource_id)
          organization_mismatch
      account ← account_of attempt
      applied ←
          apply_resource account.provider intent attempt resource idempotency_key
            Source.cancellation_worker (is_cancelled order.status)
      now ← gets (λ s. s.journal.now)
      let is_done = is_complete applied.intent.status
      let attempt' = after_cancellation is_done now applied.attempt
      save_attempt attempt'
      announce applied.is_changed applied.intent none (cancellation_change applied.intent.status)
          idempotency_key
      pure (attempt', is_done)
