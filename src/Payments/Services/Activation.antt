-- ===== src/Payments/Services/Activation.antt =====
-- `activate_hosted_checkout` of apps/payments/services.py: what a worker writes when the provider
-- has created the checkout.
use vidalys_flow.Common.{
  ℕ, ◌+◌, Bool, true, false, not, ◌&&◌, ◌||◌, Option, none, some, find, if◌then◌else◌,
}
use vidalys_flow.Text.{Text, codes, is_empty, text_eq}
use vidalys_flow.Transaction.{◌>>=◌, ◌>>◌, pure, gets, unless, raise_if, or_raise}
use vidalys_flow.Idempotency.Command.{once}
use vidalys_flow.Orders.Tables.{is_confirmed}
use vidalys_flow.Payments.Tables.{
  awaiting_payment, requires_attention, is_pending, AttemptStatus, active, is_requested, Source,
  Reason, no_reason, dispatch_context_changed, no_error, PaymentIntent, PaymentAttempt,
  CommandResult,
}
use vidalys_flow.Payments.Errors.{
  PaymentService, invalid_payment, organization_mismatch, idempotency_conflict,
}
use vidalys_flow.Payments.Providers.{CheckoutResult}
use vidalys_flow.Payments.Services.{
  PaymentEvent, checkout_activated, attention_required, payment_receipts, lock_intent, save_intent,
  save_attempt_or, history, record_change, existing_attempt, result_of, same_token, is_some,
  account_is_active,
}
use vidalys_flow.Payments.Services.Checkout.{PaymentRequest, activation_request}
use vidalys_flow.Payments.Services.Leases.{is_attempt_of}

-- The parts of a URL that the service reads.
pub record ParsedUrl : Type 0 where
  pub scheme : Text
  pub netloc : Text

abbrev pub is_cancelled : AttemptStatus → Bool
is_cancelled AttemptStatus.cancelled = true
is_cancelled _ = false

-- The answer of a provider to a request that was in flight when the attempt was cancelled here.
abbrev pub is_result_after_local_cancel : PaymentAttempt → Bool
is_result_after_local_cancel attempt =
    is_cancelled attempt.status
    && is_some attempt.lease_token
    && is_empty attempt.external_resource_id

abbrev pub is_foreign_lease : Option ℕ → Option ℕ → Bool
is_foreign_lease held token = is_some held && not (same_token held token)

abbrev pub activated : CheckoutResult → PaymentAttempt → PaymentAttempt
activated answer attempt = record attempt {
  external_resource_id = answer.external_resource_id;
  hosted_url = answer.hosted_url;
  expires_at = answer.expires_at;
  status = active;
  lease_token = none;
  lease_expires_at = none;
  available_at = none;
  error_code = no_error;
  version = attempt.version + 1;
}

abbrev pub context_reason : Bool → Reason
context_reason true = dispatch_context_changed
context_reason false = no_reason

abbrev pub awaiting : Bool → PaymentIntent → PaymentIntent
awaiting context_changed intent = record intent {
  status = if context_changed then requires_attention else awaiting_payment;
  attention_code = context_reason context_changed;
  version = intent.version + 1;
}

abbrev pub activation_event : Bool → PaymentEvent
activation_event true = attention_required
activation_event false = checkout_activated

unfoldable pub activate_hosted_checkout_work :
    ℕ
    → PaymentAttempt
    → CheckoutResult
    → Text
    → Option ℕ
    → PaymentService (PaymentAttempt × CommandResult)
activate_hosted_checkout_work organization reference answer idempotency_key lease_token = do
  locked ← lock_intent organization reference.intent
  let order = locked.0
  let intent = locked.1
  attempt ←
      or_raise
        (← gets (λ s. find (is_attempt_of organization intent.id reference.id) s.payments.attempts))
        organization_mismatch
  unless (is_requested attempt.status || is_result_after_local_cancel attempt) invalid_payment
  raise_if (is_foreign_lease attempt.lease_token lease_token) invalid_payment
  account_active ← gets (account_is_active organization attempt.provider_account)
  let context_changed =
      not (is_confirmed order.status) || not (is_pending intent.status) || not account_active
  let attempt' = activated answer attempt
  save_attempt_or invalid_payment attempt'
  let intent' = awaiting context_changed intent
  save_intent intent'
  history intent' (some intent.status) none idempotency_key Source.provider_worker
      (context_reason context_changed)
  record_change intent' none (activation_event context_changed) idempotency_key
  pure (attempt', result_of intent' (some attempt'))

-- `urllib.parse.urlparse` is a parameter.
module _ (urlparse : Text → ParsedUrl) (payload_hash : PaymentRequest → ℕ) where
  abbrev pub is_hosted_checkout : CheckoutResult → Bool
  is_hosted_checkout answer =
      text_eq (urlparse answer.hosted_url).scheme (codes "https")
      && not (is_empty (urlparse answer.hosted_url).netloc)
      && not (is_empty answer.external_resource_id)

  unfoldable pub activate_hosted_checkout :
      ℕ → PaymentAttempt → CheckoutResult → Text → Option ℕ → PaymentService PaymentAttempt
  activate_hosted_checkout organization attempt answer idempotency_key lease_token = do
    unless (is_hosted_checkout answer) invalid_payment
    once payment_receipts (λ _. idempotency_conflict) organization
        (codes "activate_hosted_checkout") idempotency_key
        (payload_hash (activation_request attempt.id answer.external_resource_id answer.hosted_url))
        (activate_hosted_checkout_work organization attempt answer idempotency_key lease_token)
        existing_attempt
