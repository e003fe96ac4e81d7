-- ===== src/Payments/Services/Leases.antt =====
-- The leases under which a worker sends a checkout to its provider: `claim_requested_checkout`,
-- `claim_checkout_cancellation` and `release_checkout_lease` of apps/payments/services.py.
pub mod Exclusion
use vidalys_flow.Common.{ℕ, ◌+◌, Bool, true, false, ◌&&◌, Option, none, some, ◌++◌, find, ◌==◌}
use vidalys_flow.Text.{Text, codes, is_empty}
use vidalys_flow.Transaction.{◌>>=◌, ◌>>◌, pure, gets, unless, raise_if, or_raise}
use vidalys_flow.Orders.Tables.{is_confirmed}
use vidalys_flow.Payments.Tables.{
  IntentStatus, is_pending, is_terminal_intent, AttemptStatus, is_requested, is_cancellable, Source,
  no_reason, order_not_confirmed_reason, DispatchError, no_error, order_not_confirmed,
  intent_not_pending, provider_account_inactive, is_error, PaymentIntent, PaymentAttempt,
}
use vidalys_flow.Payments.Errors.{PaymentService, invalid_payment}
use vidalys_flow.Payments.Services.{
  was_cancelled, status_changed, lock_intent, save_intent, save_attempt, history, record_change,
  is_later, same_token, dispatch_lease_seconds, retry_delay, account_is_active, fresh_id, id_text,
}
use vidalys_flow.Payments.Services.Checkout.{versioned}

-- The first query of these services, by the identifier alone.
abbrev pub is_attempt : ℕ → PaymentAttempt → Bool
is_attempt id a = a.id == id

-- The attempt that is locked after its intent.
abbrev pub is_attempt_of : ℕ → ℕ → ℕ → PaymentAttempt → Bool
is_attempt_of organization intent id a =
    a.id == id && a.organization == organization && a.intent == intent

-- Why an attempt cannot be sent any more, if so: of the order, the intent and the account.
abbrev pub ineligibility : Bool → Bool → Bool → DispatchError
ineligibility false pending active = order_not_confirmed
ineligibility true false active = intent_not_pending
ineligibility true true false = provider_account_inactive
ineligibility true true true = no_error

abbrev pub status_of_ineligible : DispatchError → AttemptStatus
status_of_ineligible provider_account_inactive = AttemptStatus.failed
status_of_ineligible _ = AttemptStatus.cancelled

abbrev pub cancelled_at_now : ℕ → PaymentIntent → PaymentIntent
cancelled_at_now now intent = record intent {
  status = IntentStatus.cancelled;
  attention_code = no_reason;
  cancelled_at = some now;
  version = intent.version + 1;
}

-- What becomes of the intent of an attempt that cannot be sent.
abbrev pub close_intent : DispatchError → Bool → PaymentIntent → Text → PaymentService (Unit {0})
close_intent order_not_confirmed false intent command_id = do
  now ← gets (λ s. s.journal.now)
  let intent' = cancelled_at_now now intent
  save_intent intent'
  history intent' (some intent.status) none command_id Source.provider_worker
      order_not_confirmed_reason
  record_change intent' none was_cancelled command_id
close_intent provider_account_inactive terminal intent command_id = do
  let intent' = versioned intent
  save_intent intent'
  record_change intent' none status_changed command_id
close_intent _ terminal intent command_id = pure tt

abbrev pub ineligible : DispatchError → PaymentAttempt → PaymentAttempt
ineligible error attempt = record attempt {
  status = status_of_ineligible error;
  error_code = error;
  version = attempt.version + 1;
}

unfoldable pub close_ineligible :
    DispatchError → PaymentIntent → PaymentAttempt → PaymentService PaymentAttempt
close_ineligible error intent attempt = do
  let attempt' = ineligible error attempt
  save_attempt attempt'
  close_intent error (is_terminal_intent intent.status) intent
      (codes "dispatch-ineligible-" ++ id_text attempt.id)
  pure attempt'

abbrev pub leased : ℕ → ℕ → PaymentAttempt → PaymentAttempt
leased token now attempt = record attempt {
  lease_token = some token;
  lease_expires_at = some (now + dispatch_lease_seconds);
  dispatch_attempts = attempt.dispatch_attempts + 1;
  available_at = none;
  error_code = no_error;
}

-- A token is an identifier that no earlier lease has had.
abbrev pub take_lease : PaymentAttempt → PaymentService PaymentAttempt
take_lease attempt = do
  now ← gets (λ s. s.journal.now)
  token ← fresh_id
  let attempt' = leased token now attempt
  save_attempt attempt'
  pure attempt'

abbrev pub claim_or_close :
    DispatchError → PaymentIntent → PaymentAttempt → PaymentService PaymentAttempt
claim_or_close no_error intent attempt = take_lease attempt
claim_or_close error intent attempt = close_ineligible error intent attempt

-- The waits that a claim respects: for the next try, and for the lease of another worker.
abbrev pub ensure_available : PaymentAttempt → PaymentService (Unit {0})
ensure_available attempt = do
  now ← gets (λ s. s.journal.now)
  raise_if (is_later attempt.available_at now) invalid_payment
  raise_if (is_later attempt.lease_expires_at now) invalid_payment

unfoldable pub claim_requested_checkout : ℕ → PaymentService PaymentAttempt
claim_requested_checkout attempt_id = do
  reference ←
      or_raise (← gets (λ s. find (is_attempt attempt_id) s.payments.attempts)) invalid_payment
  locked ← lock_intent reference.organization reference.intent
  let order = locked.0
  let intent = locked.1
  attempt ←
      or_raise
        (← gets (λ s.
          find (is_attempt_of reference.organization intent.id attempt_id) s.payments.attempts))
        invalid_payment
  unless (is_requested attempt.status) invalid_payment
  ensure_available attempt
  account_active ← gets (account_is_active reference.organization attempt.provider_account)
  claim_or_close
      (ineligibility (is_confirmed order.status) (is_pending intent.status) account_active) intent
      attempt

unfoldable pub claim_checkout_cancellation : ℕ → PaymentService PaymentAttempt
claim_checkout_cancellation attempt_id = do
  reference ←
      or_raise (← gets (λ s. find (is_attempt attempt_id) s.payments.attempts)) invalid_payment
  locked ← lock_intent reference.organization reference.intent
  let intent = locked.1
  attempt ←
      or_raise
        (← gets (λ s.
          find (λ a. a.id == attempt_id && a.intent == intent.id && is_cancellable a.status)
            s.payments.attempts))
        invalid_payment
  raise_if (is_empty attempt.external_resource_id) invalid_payment
  ensure_available attempt
  take_lease attempt

abbrev pub retry_at : DispatchError → ℕ → ℕ → Option ℕ
retry_at error now attempts = elim (is_error error) [
  | true ↦ some (now + retry_delay attempts)
  | false ↦ none
]

abbrev pub released : DispatchError → ℕ → PaymentAttempt → PaymentAttempt
released error now attempt = record attempt {
  lease_token = none;
  lease_expires_at = none;
  error_code = error;
  available_at = retry_at error now attempt.dispatch_attempts;
}

abbrev pub release_if_held : Option ℕ → DispatchError → Option PaymentAttempt → PaymentService Bool
release_if_held token error none = pure false
release_if_held token error (some attempt) = elim (same_token attempt.lease_token token) [
  | false ↦ pure false
  | true ↦ do now ← gets (λ s. s.journal.now); save_attempt (released error now attempt); pure true
]

abbrev pub release_of : ℕ → Option ℕ → DispatchError → Option PaymentAttempt → PaymentService Bool
release_of attempt_id token error none = pure false
release_of attempt_id token error (some reference) = do
  locked ← lock_intent reference.organization reference.intent
  attempt ←
      gets (λ s. find (λ a. a.id == attempt_id && a.intent == (locked.1).id) s.payments.attempts)
  release_if_held token error attempt

unfoldable pub release_checkout_lease : ℕ → Option ℕ → DispatchError → PaymentService Bool
release_checkout_lease attempt_id token error = do
  reference ← gets (λ s. find (is_attempt attempt_id) s.payments.attempts)
  release_of attempt_id token error reference
