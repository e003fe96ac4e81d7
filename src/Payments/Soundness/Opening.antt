-- ===== src/Payments/Soundness/Opening.antt =====
-- The services that open a payment keep the tables sound: create_payment_intent,
-- request_hosted_checkout and activate_hosted_checkout.
use vidalys_flow.Common.{
  ℕ, ◌≡◌, refl, inl, inr, Bool-cases, arith, Bool, true, false, not, ◌&&◌, ◌||◌, Option, List, [],
  ◌∷◌, any, ◌==◌,
}
use vidalys_flow.Text.{Text, text_eq}
use vidalys_flow.Organizations.{User}
use vidalys_flow.Idempotency.Invariant.{once-Preserves}
use vidalys_flow.Transaction.{◌>>=◌, ◌>>◌, gets, raise_if, raise_if-bind}
use vidalys_flow.Transaction.Preserves.{
  Preserves, Preserves-bind, Preserves-then, Preserves-unless, Preserves-learn,
  Preserves-raise_if-then, Preserves-modify,
}
use vidalys_flow.Payments.Tables.{is_open, PaymentIntent, ProviderAccount, PaymentAttempt}
use vidalys_flow.Payments.Errors.{PaymentService, invalid_payment, integrity_error}
use vidalys_flow.Payments.Providers.{CheckoutResult}
use vidalys_flow.Payments.Services.{set_payments, fresh_id, conflicts, payment_receipts}
use vidalys_flow.Payments.Services.Checkout.{
  PaymentRequest, new_attempt, create_payment_intent_work, request_hosted_checkout_work,
  create_payment_intent, request_hosted_checkout,
}
use vidalys_flow.Payments.Services.Activation.{
  ParsedUrl, activate_hosted_checkout_work, activate_hosted_checkout,
}
use vidalys_flow.Payments.Soundness.{IsValidIntent, IsSound}
use vidalys_flow.Payments.Soundness.Rows.{insert-IsExclusive}
use vidalys_flow.Payments.Soundness.Intents.{
  new_intent-IsValidIntent, versioned-IsValidIntent, awaiting-IsValidIntent,
}
use vidalys_flow.Payments.Soundness.Saves.{
  lock_order-IsSound, lock_intent-IsSound, existing_intent-IsSound, existing_attempt-IsSound,
  require_manager-IsSound, saves,
}

insert_intent-IsSound :
    (i : PaymentIntent)
    → IsValidIntent i
    → Preserves IsSound (set_payments (λ t. record t { intents = i ∷ t.intents }))
insert_intent-IsSound i valid =
    Preserves-modify IsSound _ λ s sound. ((valid, sound.0), sound.1, sound.2)

create_payment_intent_work-IsSound :
    (organization order_id : ℕ) (actor : User) (key : Text)
    → Preserves IsSound (create_payment_intent_work organization order_id actor key)
unfolding create_payment_intent_work
create_payment_intent_work-IsSound organization order_id actor key =
    Preserves-bind IsSound _ _ (lock_order-IsSound organization order_id) λ order.
      Preserves-then IsSound _ _ (Preserves-unless IsSound _ _) (
        Preserves-raise_if-then IsSound (order.total == 0) _ _
          λ positive. search (saves, insert_intent-IsSound, new_intent-IsValidIntent) depth 30)

no_conflict :
    (n x y p t : Bool) → (x && y) ≡ false → (n && (x && true && y || p && false && t)) ≡ false
no_conflict n x y p t h = ground arith

-- The new attempt is requested, and no attempt of its intent is open.
new_attempt_free :
    (id : ℕ) (i : PaymentIntent) (account : ProviderAccount) (key : Text)
    (rows : List PaymentAttempt)
    → any (λ a. a.intent == i.id && is_open a.status) rows ≡ false
    → any (conflicts (new_attempt id i account key)) rows ≡ false
new_attempt_free id i account key [] h = refl
new_attempt_free id i account key (a ∷ rows) h =
    elim (Bool-cases (a.intent == i.id && is_open a.status)) [
      | inl open_attempt ↦ absurd (ground arith)
      | inr closed ↦
          rw
            (
              any,
              no_conflict (not (a.id == id)) (a.intent == i.id) (is_open a.status)
                  (a.provider_account == account.id) (text_eq a.external_resource_id []) closed,
            )
            (new_attempt_free id i account key rows (ground arith))
    ]

insert_attempt-IsSound :
    {B : Type 0} (i : PaymentIntent) (account : ProviderAccount) (key : Text)
    (k : ℕ → PaymentService B)
    → ((id : ℕ) → Preserves IsSound (k id))
    → Preserves IsSound (do
      attempts ← gets (λ s. s.payments.attempts)
      raise_if (any (λ a. a.intent == i.id && is_open a.status) attempts) invalid_payment
      id ← fresh_id
      raise_if
          (any (λ a. a.intent == i.id && text_eq a.provider_idempotency_key key) attempts)
          integrity_error
      set_payments (λ t. record t { attempts = new_attempt id i account key ∷ t.attempts })
      k id)
unfolding fresh_id
insert_attempt-IsSound i account key k hk = record {
  at = λ s b s' sound h.
      let id = s.journal.next_id in
      let (closed, rest) =
        raise_if-bind (any (λ a. a.intent == i.id && is_open a.status) s.payments.attempts)
          invalid_payment _ s h in
      let (_, inserted) =
        raise_if-bind
          (any (λ a. a.intent == i.id && text_eq a.provider_idempotency_key key)
            s.payments.attempts)
          integrity_error _ _ rest in
      (hk id).at _ b s'
        (
          sound.0,
          (refl, sound.1),
          insert-IsExclusive (new_attempt id i account key) s.payments.attempts
              (new_attempt_free id i account key s.payments.attempts closed) sound.2,
        )
        inserted;
}

request_hosted_checkout_work-IsSound :
    (organization intent_id account_id : ℕ) (actor : User) (expected_version : ℕ) (key : Text)
    → Preserves IsSound
        (request_hosted_checkout_work organization intent_id account_id actor expected_version key)
unfolding request_hosted_checkout_work
request_hosted_checkout_work-IsSound organization intent_id account_id actor expected_version key =
    Preserves-learn IsSound _ _ (lock_intent-IsSound organization intent_id)
      λ locked valid. search (insert_attempt-IsSound, saves, versioned-IsValidIntent) depth 40

activate_hosted_checkout_work-IsSound :
    (organization : ℕ) (a : PaymentAttempt) (answer : CheckoutResult) (key : Text)
    (token : Option ℕ)
    → Preserves IsSound (activate_hosted_checkout_work organization a answer key token)
unfolding activate_hosted_checkout_work
activate_hosted_checkout_work-IsSound organization a answer key token =
    Preserves-learn IsSound _ _ (lock_intent-IsSound organization a.intent)
      λ locked valid. search (saves, awaiting-IsValidIntent) depth 40

-- The receipts of commands are in no row of the intents and attempts.
module _ (payload_hash : PaymentRequest → ℕ) where
  pub create_payment_intent-IsSound :
      (organization order_id : ℕ) (actor : User) (key : Text)
      → Preserves IsSound (create_payment_intent payload_hash organization order_id actor key)
  unfolding create_payment_intent
  create_payment_intent-IsSound organization order_id actor key =
      Preserves-then IsSound _ _ (require_manager-IsSound actor organization) (
        once-Preserves payment_receipts _ IsSound (λ t s h. h) _ _ _ _ _ _
          (create_payment_intent_work-IsSound organization order_id actor key)
          existing_intent-IsSound)

  pub request_hosted_checkout-IsSound :
      (organization intent_id account_id : ℕ) (actor : User) (expected_version : ℕ) (key : Text)
      → Preserves IsSound (
          request_hosted_checkout payload_hash organization intent_id account_id actor
            expected_version key)
  unfolding request_hosted_checkout
  request_hosted_checkout-IsSound organization intent_id account_id actor expected_version key =
      Preserves-then IsSound _ _ (require_manager-IsSound actor organization) (
        once-Preserves payment_receipts _ IsSound (λ t s h. h) _ _ _ _ _ _
          (request_hosted_checkout_work-IsSound organization intent_id account_id actor
            expected_version key)
          existing_attempt-IsSound)

  pub activate_hosted_checkout-IsSound :
      (urlparse : Text → ParsedUrl) (organization : ℕ) (a : PaymentAttempt)
      (answer : CheckoutResult) (key : Text) (token : Option ℕ)
      → Preserves IsSound
          (activate_hosted_checkout urlparse payload_hash organization a answer key token)
  unfolding activate_hosted_checkout
  activate_hosted_checkout-IsSound urlparse organization a answer key token =
      Preserves-then IsSound _ _ (Preserves-unless IsSound _ _) (
        once-Preserves payment_receipts _ IsSound (λ t s h. h) _ _ _ _ _ _
          (activate_hosted_checkout_work-IsSound organization a answer key token)
          existing_attempt-IsSound)
