-- ===== src/Payments/Steps.antt =====
-- The transactions of apps/payments as a step relation. Whatever order members, callbacks and workers
-- run them in, a history of the database is a sequence of these steps and of steps of the other
-- applications, which leave the tables of payments alone.
pub mod Soundness
pub mod Processes
pub mod TaskRuns
use vidalys_flow.Common.{ℕ, ◌≡◌, Bool, Option}
use vidalys_flow.Text.{Text}
use vidalys_flow.Organizations.{User}
use vidalys_flow.Transaction.{ok}
use vidalys_flow.Database.{Database}
use vidalys_flow.Payments.Tables.{
  ProviderAccount, PaymentIntent, PaymentAttempt, WebhookReceipt, DispatchError,
}
use vidalys_flow.Payments.Providers.{CheckoutResult, ProviderResource}
use vidalys_flow.Payments.Services.Checkout.{
  PaymentRequest, create_payment_intent, request_hosted_checkout,
}
use vidalys_flow.Payments.Services.Leases.{
  claim_requested_checkout, claim_checkout_cancellation, release_checkout_lease,
}
use vidalys_flow.Payments.Services.Activation.{ParsedUrl, activate_hosted_checkout}
use vidalys_flow.Payments.Services.Providing.{
  Notice, apply_verified_provider_resource, reconcile_verified_resource,
}
use vidalys_flow.Payments.Services.Cancellation.{
  request_hosted_checkout_cancellation, complete_cancellation_event_for_terminal_attempt,
  apply_verified_checkout_cancellation,
}
use vidalys_flow.Payments.Services.Closing.{
  reopen_payment_after_verified_closure, consume_order_cancelled,
}

-- The digests and the reading of URLs that the services use.
pub record Primitives : Type 0 where
  pub urlparse : Text → ParsedUrl
  pub payload_hash : PaymentRequest → ℕ
  pub callback_digest : ℕ → Text → Text
  pub event_digest : ℕ → ℕ → Text

pub data Step (p : Primitives) (s s' : Database) : Type 0 where
  created :
      (organization order_id : ℕ) (actor : User) (key : Text) (i : PaymentIntent)
      → create_payment_intent p.payload_hash organization order_id actor key s ≡ ok i s'
      → Step p s s'
  asked :
      (organization intent_id account_id : ℕ) (actor : User) (version : ℕ) (key : Text)
      (a : PaymentAttempt)
      → request_hosted_checkout p.payload_hash organization intent_id account_id actor version key s
        ≡ ok a s'
      → Step p s s'
  claimed :
      (attempt_id : ℕ) (a : PaymentAttempt)
      → claim_requested_checkout attempt_id s ≡ ok a s'
      → Step p s s'
  released :
      (attempt_id : ℕ) (token : Option ℕ) (error : DispatchError) (is_held : Bool)
      → release_checkout_lease attempt_id token error s ≡ ok is_held s'
      → Step p s s'
  activated :
      (organization : ℕ) (reference : PaymentAttempt) (answer : CheckoutResult) (key : Text)
      (token : Option ℕ) (a : PaymentAttempt)
      → activate_hosted_checkout p.urlparse p.payload_hash organization reference answer key token s
        ≡ ok a s'
      → Step p s s'
  notified :
      (account : ProviderAccount) (notice : Notice) (resource : ProviderResource)
      (w : WebhookReceipt)
      → apply_verified_provider_resource p.callback_digest account notice resource s ≡ ok w s'
      → Step p s s'
  reconciled :
      (organization intent_id : ℕ) (actor : User) (version : ℕ) (key : Text)
      (resource : ProviderResource) (i : PaymentIntent)
      → reconcile_verified_resource p.payload_hash organization intent_id actor version key resource
          s
        ≡ ok i s'
      → Step p s s'
  cancellation_asked :
      (organization intent_id : ℕ) (actor : User) (version : ℕ) (key : Text) (a : PaymentAttempt)
      → request_hosted_checkout_cancellation p.payload_hash organization intent_id actor version key
          s
        ≡ ok a s'
      → Step p s s'
  cancellation_claimed :
      (attempt_id : ℕ) (a : PaymentAttempt)
      → claim_checkout_cancellation attempt_id s ≡ ok a s'
      → Step p s s'
  cancellation_completed :
      (attempt_id event_id : ℕ) (is_done : Bool)
      → complete_cancellation_event_for_terminal_attempt attempt_id event_id s ≡ ok is_done s'
      → Step p s s'
  cancellation_applied :
      (organization : ℕ) (reference : PaymentAttempt) (resource : ProviderResource) (key : Text)
      (token : Option ℕ) (result : PaymentAttempt × Bool)
      → apply_verified_checkout_cancellation organization reference resource key token s
        ≡ ok result s'
      → Step p s s'
  reopens :
      (organization intent_id : ℕ) (actor : User) (version : ℕ) (key : Text) (i : PaymentIntent)
      → reopen_payment_after_verified_closure p.payload_hash organization intent_id actor version
          key s
        ≡ ok i s'
      → Step p s s'
  order_cancelled :
      (organization order_id event_id : ℕ) (i : PaymentIntent)
      → consume_order_cancelled p.event_digest p.payload_hash organization order_id event_id s
        ≡ ok i s'
      → Step p s s'
  elsewhere : s'.payments ≡ s.payments → Step p s s'

pub data Steps (p : Primitives) : Database → Database → Type 0 where
  none_left : (s : Database) → Steps p s s
  and_then : {s t u : Database} → Step p s t → Steps p t u → Steps p s u
