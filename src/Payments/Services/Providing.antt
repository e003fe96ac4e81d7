-- ===== src/Payments/Services/Providing.antt =====
-- The services of apps/payments/services.py that apply what a provider confirms:
-- `_canonical_transition`, `_apply_resource_to_locked_attempt`, `apply_verified_provider_resource`
-- and `reconcile_verified_resource`.
pub mod Repeats
use vidalys_flow.Common.{
  ℕ, Bool, true, false, ◌&&◌, Option, none, some, List, [], ◌∷◌, find, select, reverse, ◌==◌,
}
use vidalys_flow.Text.{Text, codes, text_eq}
use vidalys_flow.Organizations.{User}
use vidalys_flow.Transaction.{◌>>=◌, ◌>>◌, pure, raise, gets, unless, or_raise}
use vidalys_flow.Idempotency.Command.{once}
use vidalys_flow.Payments.Tables.{
  Provider, mercado_pago, same_provider, ProviderAccount, is_attention, Source, Reason,
  requires_attention_locked, PaymentIntent, PaymentAttempt, WebhookReceipt, CommandResult,
}
use vidalys_flow.Payments.Errors.{
  PaymentService, invalid_payment, organization_mismatch, idempotency_conflict, does_not_exist,
  multiple_objects_returned,
}
use vidalys_flow.Payments.Providers.{ProviderResource}
use vidalys_flow.Payments.Resolution.{
  Decision, Verdict, unknown_status, attention_locked, unchanged, changed, verdict, moved_intent,
  moved_attempt,
}
use vidalys_flow.Payments.Services.{
  PaymentEvent, status_changed, attention_required, payment_receipts, require_manager, lock_intent,
  ensure_version, set_payments, save_intent, save_attempt, history, record_change, existing_intent,
  result_of,
}
use vidalys_flow.Payments.Services.Checkout.{PaymentRequest, reconciliation_request}

-- The rows that the locked objects have become, and the pair that the source returns.
pub record Applied : Type 0 where
  pub intent : PaymentIntent
  pub attempt : PaymentAttempt
  pub is_changed : Bool
  pub reason : Reason

abbrev pub left_alone : PaymentIntent → PaymentAttempt → Reason → Applied
left_alone intent attempt why = record {
  intent = intent;
  attempt = attempt;
  is_changed = false;
  reason = why;
}

unfoldable pub canonical_transition :
    PaymentIntent → PaymentAttempt → Decision → Text → Source → PaymentService Applied
canonical_transition intent attempt d command_id source = do
  now ← gets (λ s. s.journal.now)
  let intent' = moved_intent now d intent
  let attempt' = moved_attempt d attempt
  save_intent intent'
  save_attempt attempt'
  history intent' (some intent.status) none command_id source d.reason
  pure (record { intent = intent'; attempt = attempt'; is_changed = true; reason = d.reason })

abbrev pub act_on :
    Verdict → PaymentIntent → PaymentAttempt → Text → Source → PaymentService Applied
act_on unknown_status intent attempt command_id source = raise invalid_payment
act_on attention_locked intent attempt command_id source =
    pure (left_alone intent attempt requires_attention_locked)
act_on (unchanged why) intent attempt command_id source = pure (left_alone intent attempt why)
act_on (changed d) intent attempt command_id source =
    canonical_transition intent attempt d command_id source

-- `order_cancelled` is `order_status == Order.Status.CANCELLED`, false where no status is passed.
unfoldable pub apply_resource :
    Provider
    → PaymentIntent
    → PaymentAttempt
    → ProviderResource
    → Text
    → Source
    → Bool
    → PaymentService Applied
apply_resource provider intent attempt resource command_id source order_cancelled =
    act_on (verdict provider intent attempt resource source order_cancelled) intent attempt
      command_id source

abbrev pub change_event : PaymentIntent → PaymentEvent
change_event intent = elim (is_attention intent.status) [
  | true ↦ attention_required
  | false ↦ status_changed
]

unfoldable pub announce :
    Bool → PaymentIntent → Option ℕ → PaymentEvent → Text → PaymentService (Unit {0})
announce true intent actor event command_id = record_change intent actor event command_id
announce false intent actor event command_id = pure tt

abbrev pub is_callback_account : ℕ → ℕ → ProviderAccount → Bool
is_callback_account organization id a =
    a.organization == organization && a.id == id && a.is_active && a.callbacks_enabled

abbrev pub is_replay : ℕ → Text → Text → WebhookReceipt → Bool
is_replay account external_resource_id request_id_digest w =
    w.provider_account == account
    && text_eq w.external_resource_id external_resource_id
    && text_eq w.authenticated_request_id_digest request_id_digest

abbrev pub has_resource : ℕ → ℕ → Text → PaymentAttempt → Bool
has_resource organization account external_resource_id a =
    a.organization == organization
    && a.provider_account == account
    && text_eq a.external_resource_id external_resource_id

-- The notice that a callback brings, beside the resource.
pub record Notice : Type 0 where
  pub external_event_id : Text
  pub request_id_digest : Text
  pub request_digest : Text

abbrev pub new_webhook :
    ProviderAccount → Notice → ProviderResource → PaymentIntent → WebhookReceipt
new_webhook account notice resource intent = record {
  organization = account.organization;
  provider_account = account.id;
  external_event_id = notice.external_event_id;
  external_resource_id = resource.external_resource_id;
  authenticated_request_id_digest = notice.request_id_digest;
  request_digest = notice.request_digest;
  canonical_result = intent.status;
}

-- `get(...)` of rows that a query finds.
abbrev pub the_only : List PaymentAttempt → PaymentService PaymentAttempt
the_only [] = raise does_not_exist
the_only (a ∷ []) = pure a
the_only (a ∷ b ∷ more) = raise multiple_objects_returned

-- The rest of `apply_verified_provider_resource` where no receipt of the request was found, so that
-- the insertion meets no other receipt of it.
unfoldable pub receive_resource :
    ProviderAccount → Notice → ProviderResource → Text → PaymentService WebhookReceipt
receive_resource account notice resource command_id = do
  reference ←
      or_raise
        (← gets (λ s.
          find (has_resource account.organization account.id resource.external_resource_id)
            (reverse s.payments.attempts)))
        organization_mismatch
  locked ← lock_intent account.organization reference.intent
  attempt ←
      the_only
        (← gets (λ s.
          select (has_resource account.organization account.id resource.external_resource_id)
            s.payments.attempts))
  applied ←
      apply_resource account.provider locked.1 attempt resource command_id Source.provider_callback
        false
  announce applied.is_changed applied.intent none (change_event applied.intent) command_id
  let receipt = new_webhook account notice resource applied.intent
  set_payments (λ t. record t { webhooks = receipt ∷ t.webhooks })
  pure receipt

abbrev pub receive_unless_replayed :
    Option WebhookReceipt → PaymentService WebhookReceipt → PaymentService WebhookReceipt
receive_unless_replayed none receive = receive
receive_unless_replayed (some receipt) receive = pure receipt

-- `sha256(f"{account.id}:{external_event_id}")` is a parameter. The second query of the receipt
-- finds what the first one found, since no other transaction commits in between here.
unfoldable pub apply_verified_provider_resource :
    (ℕ → Text → Text) → ProviderAccount → Notice → ProviderResource → PaymentService WebhookReceipt
apply_verified_provider_resource callback_digest provider_account notice resource = do
  account ←
      or_raise
        (← gets (λ s.
          find (is_callback_account provider_account.organization provider_account.id)
            s.payments.accounts))
        invalid_payment
  unless (same_provider account.provider mercado_pago) invalid_payment
  existing ← gets (λ s.
      find (is_replay account.id resource.external_resource_id notice.request_id_digest)
        s.payments.webhooks)
  receive_unless_replayed existing (
      receive_resource account notice resource
        (callback_digest account.id notice.external_event_id))

-- The attempt of an intent that a resource belongs to, the oldest one first.
abbrev pub has_intent_resource : ℕ → ℕ → Text → PaymentAttempt → Bool
has_intent_resource organization intent external_resource_id a =
    a.organization == organization
    && a.intent == intent
    && text_eq a.external_resource_id external_resource_id

-- `attempt.provider_account`
abbrev pub account_of : PaymentAttempt → PaymentService ProviderAccount
account_of attempt = do
  or_raise (← gets (λ s. find (λ a. a.id == attempt.provider_account) s.payments.accounts))
      does_not_exist

unfoldable pub reconcile_verified_resource_work :
    ℕ → ℕ → User → ℕ → Text → ProviderResource → PaymentService (PaymentIntent × CommandResult)
reconcile_verified_resource_work organization intent_id actor expected_version idempotency_key
      resource =
    do
      locked ← lock_intent organization intent_id
      let intent = locked.1
      ensure_version intent expected_version
      attempt ←
          or_raise
            (← gets (λ s.
              find (has_intent_resource organization intent.id resource.external_resource_id)
                (reverse s.payments.attempts)))
            organization_mismatch
      account ← account_of attempt
      applied ←
          apply_resource account.provider intent attempt resource idempotency_key
            Source.reconciliation false
      announce applied.is_changed applied.intent (some actor.id) (change_event applied.intent)
          idempotency_key
      pure (applied.intent, result_of applied.intent (some applied.attempt))

unfoldable pub reconcile_verified_resource :
    (PaymentRequest → ℕ) → ℕ → ℕ → User → ℕ → Text → ProviderResource → PaymentService PaymentIntent
reconcile_verified_resource payload_hash organization intent_id actor expected_version
      idempotency_key resource =
    do
      require_manager actor organization
      once payment_receipts (λ _. idempotency_conflict) organization (codes "reconcile_payment")
          idempotency_key
          (payload_hash (reconciliation_request intent_id expected_version resource))
          (reconcile_verified_resource_work organization intent_id actor expected_version
            idempotency_key resource)
          existing_intent
