-- ===== src/Payments/Services/Dispatch.antt =====
-- The functions of apps/payments/services.py that call a provider between two transactions:
-- `dispatch_requested_checkout`, `dispatch_checkout_cancellation` and `fetch_and_reconcile`. No other
-- transaction commits between theirs here; the services that they run are the steps to interleave.
use vidalys_flow.Common.{ℕ, Bool, true, false, not, ◌&&◌, find, ◌==◌, ◌⊎◌, inl, inr}
use vidalys_flow.Text.{Text, is_empty}
use vidalys_flow.Organizations.{User}
use vidalys_flow.Transaction.{gets, or_raise}
use vidalys_flow.Transaction.Process.{Process, ◌>>=◌, ◌>>◌, ask, fail_if, transact, on_raise}
use vidalys_flow.Database.{Database}
use vidalys_flow.Payments.Tables.{
  same_provider, is_requested, DispatchError, timeout, external_effect_blocked, transport_error,
  provider_error, PaymentIntent, PaymentAttempt,
}
use vidalys_flow.Payments.Errors.{
  ProviderFault, timed_out, transport_failed, PaymentError, faulted, invalid_payment,
  external_effects_blocked,
}
use vidalys_flow.Payments.Providers.{Adapter, build_checkout_request}
use vidalys_flow.Payments.Services.{require_manager, find_intent}
use vidalys_flow.Payments.Services.Checkout.{PaymentRequest}
use vidalys_flow.Payments.Services.Leases.{
  claim_requested_checkout, claim_checkout_cancellation, release_checkout_lease,
}
use vidalys_flow.Payments.Services.Activation.{ParsedUrl, activate_hosted_checkout}
use vidalys_flow.Payments.Services.Providing.{account_of, reconcile_verified_resource}
use vidalys_flow.Payments.Services.Cancellation.{apply_verified_checkout_cancellation}

abbrev pub PaymentProcess : Type 0 → Type 0
PaymentProcess = Process Database PaymentError

-- `_dispatch_error_code`
abbrev pub dispatch_error_code : PaymentError → DispatchError
dispatch_error_code (faulted timed_out) = timeout
dispatch_error_code external_effects_blocked = external_effect_blocked
dispatch_error_code (faulted transport_failed) = transport_error
dispatch_error_code _ = provider_error

-- An answer of an adapter, with what it raises among the errors of the services.
abbrev pub answer_of : {A : Type 0} → ProviderFault ⊎ A → PaymentError ⊎ A
answer_of (inl fault) = inl (faulted fault)
answer_of (inr answer) = inr answer

abbrev pub release : PaymentAttempt → DispatchError → PaymentProcess (Unit {0})
release attempt error =
    transact (release_checkout_lease attempt.id attempt.lease_token error) >> ask (inr tt)

-- `require_external_effects_allowed`, with `settings.VIDALYS_DEMO_MODE`.
abbrev pub require_effects : Bool → Adapter → PaymentProcess (Unit {0})
require_effects demo_mode adapter = fail_if (adapter.external && demo_mode) external_effects_blocked

abbrev pub require_adapter : Adapter → PaymentAttempt → PaymentProcess (Unit {0})
require_adapter adapter attempt = elim (same_provider adapter.provider attempt.provider) [
  | true ↦ ask (inr tt)
  | false ↦ release attempt provider_error >> ask (inl invalid_payment)
]

module _ (urlparse : Text → ParsedUrl) (payload_hash : PaymentRequest → ℕ) (demo_mode : Bool)
    (adapter : Adapter) where
  -- `attempt.intent` is the row that the claim has read.
  abbrev pub send_checkout : PaymentAttempt → Text → PaymentProcess PaymentAttempt
  send_checkout attempt idempotency_key = do
    intent ← transact (find_intent attempt.organization attempt.intent)
    require_effects demo_mode adapter
    answer ← ask (
        answer_of (
          adapter.create_checkout (build_checkout_request intent attempt.provider_idempotency_key)))
    transact (
        activate_hosted_checkout urlparse payload_hash attempt.organization attempt answer
          idempotency_key attempt.lease_token)

  unfoldable pub dispatch_requested_checkout : ℕ → Text → PaymentProcess PaymentAttempt
  dispatch_requested_checkout attempt_id idempotency_key = do
    attempt ← transact (claim_requested_checkout attempt_id)
    fail_if (not (is_requested attempt.status)) invalid_payment
    require_adapter adapter attempt
    on_raise (send_checkout attempt idempotency_key) λ e. release attempt (dispatch_error_code e)

module _ (demo_mode : Bool) (adapter : Adapter) where
  abbrev pub send_cancellation : PaymentAttempt → Text → PaymentProcess (PaymentAttempt × Bool)
  send_cancellation attempt idempotency_key = do
    require_effects demo_mode adapter
    resource ← ask (
        answer_of
          (adapter.cancel_checkout attempt.external_resource_id attempt.provider_idempotency_key))
    transact (
        apply_verified_checkout_cancellation attempt.organization attempt resource idempotency_key
          attempt.lease_token)

  unfoldable pub dispatch_checkout_cancellation : ℕ → Text → PaymentProcess (PaymentAttempt × Bool)
  dispatch_checkout_cancellation attempt_id idempotency_key = do
    attempt ← transact (claim_checkout_cancellation attempt_id)
    require_adapter adapter attempt
    on_raise (send_cancellation attempt idempotency_key)
        λ e. release attempt (dispatch_error_code e)

-- The newest attempt of an intent that has a resource.
abbrev pub has_external_resource : ℕ → ℕ → PaymentAttempt → Bool
has_external_resource organization intent a =
    a.organization == organization && a.intent == intent && not (is_empty a.external_resource_id)

abbrev pub require_active : PaymentAttempt → PaymentProcess (Unit {0})
require_active attempt = do
  account ← transact (account_of attempt)
  fail_if (not account.is_active) invalid_payment

module _ (payload_hash : PaymentRequest → ℕ) (demo_mode : Bool) (adapter : Adapter) where
  unfoldable pub fetch_and_reconcile : ℕ → ℕ → User → ℕ → Text → PaymentProcess PaymentIntent
  fetch_and_reconcile organization intent_id actor expected_version idempotency_key = do
    transact (require_manager actor organization)
    intent ← transact (find_intent organization intent_id)
    found ←
        transact
          (gets (λ s. find (has_external_resource organization intent.id) s.payments.attempts))
    attempt ← transact (or_raise found invalid_payment)
    require_active attempt
    fail_if (not (same_provider adapter.provider attempt.provider)) invalid_payment
    require_effects demo_mode adapter
    resource ← ask (answer_of (adapter.fetch_resource attempt.external_resource_id))
    transact (
        reconcile_verified_resource payload_hash organization intent.id actor expected_version
          idempotency_key resource)
