-- ===== src/Payments/Services/Checkout.antt =====
-- `create_payment_intent` and `request_hosted_checkout` of apps/payments/services.py.
use vidalys_flow.Common.{ℕ, ◌+◌, Bool, ◌&&◌, none, some, [], ◌∷◌, any, find, ◌==◌}
use vidalys_flow.Text.{Text, codes, text_eq}
use vidalys_flow.Organizations.{User}
use vidalys_flow.Transaction.{◌>>=◌, ◌>>◌, pure, gets, unless, raise_if, or_raise}
use vidalys_flow.Idempotency.Command.{once}
use vidalys_flow.Orders.Tables.{Order, is_confirmed}
use vidalys_flow.Payments.Tables.{
  ProviderAccount, IntentStatus, is_pending, AttemptStatus, is_open, Source, no_reason, no_error,
  PaymentIntent, PaymentAttempt, CommandResult,
}
use vidalys_flow.Payments.Errors.{
  PaymentService, invalid_payment, organization_mismatch, idempotency_conflict, integrity_error,
}
use vidalys_flow.Payments.Providers.{ProviderResource}
use vidalys_flow.Payments.Services.{
  intent_created, checkout_requested, payment_receipts, require_manager, lock_order, lock_intent,
  ensure_version, set_payments, save_intent, history, record_change, existing_intent,
  existing_attempt, result_of, fresh_id,
}

-- What the digest of a command is taken of.
pub data PaymentRequest : Type 0 where
  create_intent_request : ℕ → PaymentRequest
  checkout_request : ℕ → ℕ → ℕ → PaymentRequest
  activation_request : ℕ → Text → Text → PaymentRequest
  reconciliation_request : ℕ → ℕ → ProviderResource → PaymentRequest
  cancellation_request : ℕ → ℕ → PaymentRequest
  reopening_request : ℕ → ℕ → PaymentRequest
  order_cancelled_request : ℕ → ℕ → PaymentRequest

-- `order.display_number` is a text of the order's number, which stands for it here.
abbrev pub new_intent : ℕ → Order → User → PaymentIntent
new_intent id order actor = record {
  id = id;
  organization = order.organization;
  order = order.id;
  status = IntentStatus.pending;
  currency = codes "BRL";
  amount = order.total;
  order_number = order.number;
  customer_name = order.snapshots.customer_name;
  version = 1;
  created_by = actor.id;
  paid_at = none;
  cancelled_at = none;
  expired_at = none;
  attention_code = no_reason;
}

-- The currency of every order is BRL, by a constraint of its table.
unfoldable pub create_payment_intent_work :
    ℕ → ℕ → User → Text → PaymentService (PaymentIntent × CommandResult)
create_payment_intent_work organization order_id actor idempotency_key = do
  order ← lock_order organization order_id
  unless (is_confirmed order.status) invalid_payment
  raise_if (order.total == 0) invalid_payment
  raise_if (← gets (λ s. any (λ i. i.order == order.id) s.payments.intents)) invalid_payment
  id ← fresh_id
  let intent = new_intent id order actor
  set_payments (λ t. record t { intents = intent ∷ t.intents })
  history intent none (some actor.id) idempotency_key Source.command no_reason
  record_change intent (some actor.id) intent_created idempotency_key
  pure (intent, result_of intent none)

abbrev pub is_active_account : ℕ → ℕ → ProviderAccount → Bool
is_active_account organization account_id a =
    a.organization == organization && a.id == account_id && a.is_active

abbrev pub new_attempt : ℕ → PaymentIntent → ProviderAccount → Text → PaymentAttempt
new_attempt id intent account idempotency_key = record {
  id = id;
  organization = intent.organization;
  intent = intent.id;
  provider_account = account.id;
  provider = account.provider;
  status = AttemptStatus.requested;
  provider_idempotency_key = idempotency_key;
  external_resource_id = [];
  hosted_url = [];
  expires_at = none;
  lease_token = none;
  lease_expires_at = none;
  dispatch_attempts = 0;
  available_at = none;
  error_code = no_error;
  cancellation_event = none;
  cancellation_completed_at = none;
  version = 1;
}

abbrev pub versioned : PaymentIntent → PaymentIntent
versioned intent = record intent { version = intent.version + 1 }

-- An intent may have one attempt for a provider's key, by a constraint of the table.
unfoldable pub request_hosted_checkout_work :
    ℕ → ℕ → ℕ → User → ℕ → Text → PaymentService (PaymentAttempt × CommandResult)
request_hosted_checkout_work organization intent_id account_id actor expected_version
      idempotency_key =
    do
      locked ← lock_intent organization intent_id
      let order = locked.0
      let intent = locked.1
      ensure_version intent expected_version
      unless (is_confirmed order.status && is_pending intent.status) invalid_payment
      account ←
          or_raise
            (← gets (λ s. find (is_active_account organization account_id) s.payments.accounts))
            organization_mismatch
      attempts ← gets (λ s. s.payments.attempts)
      raise_if (any (λ a. a.intent == intent.id && is_open a.status) attempts) invalid_payment
      id ← fresh_id
      let attempt = new_attempt id intent account idempotency_key
      raise_if
          (any (λ a. a.intent == intent.id && text_eq a.provider_idempotency_key idempotency_key)
            attempts)
          integrity_error
      set_payments (λ t. record t { attempts = attempt ∷ t.attempts })
      let intent' = versioned intent
      save_intent intent'
      record_change intent' (some actor.id) checkout_requested idempotency_key
      pure (attempt, result_of intent' (some attempt))

module _ (payload_hash : PaymentRequest → ℕ) where
  unfoldable pub create_payment_intent : ℕ → ℕ → User → Text → PaymentService PaymentIntent
  create_payment_intent organization order_id actor idempotency_key = do
    require_manager actor organization
    once payment_receipts (λ _. idempotency_conflict) organization (codes "create_payment_intent")
        idempotency_key (payload_hash (create_intent_request order_id))
        (create_payment_intent_work organization order_id actor idempotency_key) existing_intent

  unfoldable pub request_hosted_checkout :
      ℕ → ℕ → ℕ → User → ℕ → Text → PaymentService PaymentAttempt
  request_hosted_checkout organization intent_id account_id actor expected_version idempotency_key =
      do
        require_manager actor organization
        once payment_receipts (λ _. idempotency_conflict) organization
            (codes "request_hosted_checkout") idempotency_key
            (payload_hash (checkout_request intent_id account_id expected_version))
            (request_hosted_checkout_work organization intent_id account_id actor expected_version
              idempotency_key)
            existing_attempt
