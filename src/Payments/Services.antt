-- ===== src/Payments/Services.antt =====
-- The steps that the services of apps/payments/services.py share.
pub mod Checkout
pub mod Leases
pub mod Activation
pub mod Providing
pub mod Cancellation
pub mod Dispatch
pub mod Closing
use vidalys_flow.Common.{
  ℕ, zero, suc, ◌+◌, ◌*◌, ◌^◌, refl, Bool, true, false, not, ◌&&◌, ◌||◌, Option, none, some, List,
  [], ◌∷◌, any, find, replace, ltb, ◌==◌,
}
use Prim.Native.Nat.{min}
use vidalys_flow.Text.{Text, codes, is_empty, text_eq}
use vidalys_flow.Organizations.{User, has_manager_role}
use vidalys_flow.Platform.Tables.{OutboxKey, enqueue_event, record_event}
use vidalys_flow.Transaction.{◌>>=◌, ◌>>◌, pure, gets, modify, unless, raise_if, or_raise}
use vidalys_flow.Idempotency.{Receipt}
use vidalys_flow.Idempotency.Command.{ReceiptTable}
use vidalys_flow.Database.{Database}
use vidalys_flow.Orders.Tables.{Order}
use vidalys_flow.Payments.Tables.{
  ProviderAccount, IntentStatus, intent_status_text, PaymentIntent, PaymentAttempt, AttemptStatus,
  is_open, PaymentStatusHistory, Source, Reason, CommandResult, PaymentTables, DispatchError,
}
use vidalys_flow.Payments.Errors.{
  PaymentError, PaymentService, payment_permission_denied, organization_mismatch,
  idempotency_conflict, version_conflict, integrity_error,
}

-- The events of apps/payments/events.py.
pub data PaymentEvent : Type 0 where
  intent_created checkout_requested checkout_activated : PaymentEvent
  cancellation_requested checkout_reopened status_changed : PaymentEvent
  attention_required was_cancelled : PaymentEvent

abbrev pub event_name : PaymentEvent → Text
event_name intent_created = codes "payment.intent_created"
event_name checkout_requested = codes "payment.checkout_requested"
event_name checkout_activated = codes "payment.checkout_activated"
event_name cancellation_requested = codes "payment.checkout_cancellation_requested"
event_name checkout_reopened = codes "payment.checkout_reopened"
event_name status_changed = codes "payment.status_changed"
event_name attention_required = codes "payment.requires_attention"
event_name was_cancelled = codes "payment.cancelled"

abbrev pub payment_receipts : ReceiptTable Database CommandResult
payment_receipts = record {
  rows = λ s. s.payments.receipts;
  store = λ t s. record s { payments = record (s.payments) { receipts = t } };
  rows-store = λ t s. refl;
  store-rows = λ s. refl;
  store-store = λ t u s. refl;
}

abbrev pub require_manager : User → ℕ → PaymentService (Unit {0})
require_manager actor organization = do
  may ← gets (λ s. has_manager_role actor organization s.directory)
  unless may payment_permission_denied

abbrev pub is_order : ℕ → ℕ → Order → Bool
is_order organization id o = o.organization == organization && o.id == id

abbrev pub is_intent : ℕ → ℕ → PaymentIntent → Bool
is_intent organization id i = i.organization == organization && i.id == id

abbrev pub lock_order : ℕ → ℕ → PaymentService Order
lock_order organization order_id = do
  or_raise (← gets (λ s. find (is_order organization order_id) s.orders.orders))
      organization_mismatch

abbrev pub find_intent : ℕ → ℕ → PaymentService PaymentIntent
find_intent organization intent_id = do
  or_raise (← gets (λ s. find (is_intent organization intent_id) s.payments.intents))
      organization_mismatch

-- `_lock_intent`: the order first, then the intent, which is read again.
unfoldable pub lock_intent : ℕ → ℕ → PaymentService (Order × PaymentIntent)
lock_intent organization intent_id = do
  reference ← find_intent organization intent_id
  order ← lock_order organization reference.order
  intent ← find_intent organization intent_id
  unless (intent.order == order.id) organization_mismatch
  pure (order, intent)

abbrev pub ensure_version : PaymentIntent → ℕ → PaymentService (Unit {0})
ensure_version intent expected = unless (intent.version == expected) version_conflict

abbrev pub is_some : Option ℕ → Bool
is_some none = false
is_some (some n) = true

abbrev pub set_payments : (PaymentTables → PaymentTables) → PaymentService (Unit {0})
set_payments f = modify (λ s. record s { payments = f s.payments })

-- The snapshots of an intent never change, so that a save is a replacement of the row. The check
-- constraints of the table are not tested here: no service breaks them, see Payments/Soundness.
unfoldable pub save_intent : PaymentIntent → PaymentService (Unit {0})
save_intent intent =
    set_payments (λ t. record t { intents = replace (λ i. i.id == intent.id) intent t.intents })

-- The unique constraints of the table of attempts: one open attempt for an intent, and one attempt
-- for a resource of an account.
abbrev pub conflicts : PaymentAttempt → PaymentAttempt → Bool
conflicts a b =
    not (b.id == a.id)
    && (b.intent == a.intent && is_open a.status && is_open b.status
        || b.provider_account == a.provider_account
          && not (is_empty a.external_resource_id)
          && text_eq b.external_resource_id a.external_resource_id)

-- The check constraints of the table: of the lease, of a requested and of an active attempt.
abbrev pub lease_is_complete : PaymentAttempt → Bool
lease_is_complete a = elim (is_some a.lease_token) [
  | true ↦ is_some a.lease_expires_at
  | false ↦ not (is_some a.lease_expires_at)
]

abbrev pub fits_status : AttemptStatus → Text → Text → Bool
fits_status AttemptStatus.requested external_resource_id hosted_url =
    is_empty external_resource_id && is_empty hosted_url
fits_status AttemptStatus.active external_resource_id hosted_url =
    not (is_empty external_resource_id) && not (is_empty hosted_url)
fits_status _ external_resource_id hosted_url = true

abbrev pub is_valid_attempt : PaymentAttempt → Bool
is_valid_attempt a = lease_is_complete a && fits_status a.status a.external_resource_id a.hosted_url

-- The error is what an integrity error of the save is raised as.
unfoldable pub save_attempt_or : PaymentError → PaymentAttempt → PaymentService (Unit {0})
save_attempt_or error attempt = do
  unless (is_valid_attempt attempt) error
  rows ← gets (λ s. s.payments.attempts)
  raise_if (any (conflicts attempt) rows) error
  set_payments (λ t. record t { attempts = replace (λ a. a.id == attempt.id) attempt t.attempts })

abbrev pub save_attempt : PaymentAttempt → PaymentService (Unit {0})
save_attempt = save_attempt_or integrity_error

-- `_audit`: every caller keeps to the approved flags of the payload, which are not in the rows.
unfoldable pub audit : PaymentIntent → Option ℕ → PaymentEvent → PaymentService (Unit {0})
audit intent actor action = modify (λ s. record s {
  journal =
      record_event intent.organization actor (event_name action) (codes "payment_intent") intent.id
        intent.version s.journal;
})

abbrev pub event_key : PaymentIntent → PaymentEvent → Text → OutboxKey
event_key intent event command_id = record {
  kind = codes "payment";
  aggregate = intent.id;
  event = event_name event;
  command = command_id;
}

abbrev pub outbox : PaymentIntent → PaymentEvent → Text → PaymentService (Unit {0})
outbox intent event command_id = modify (λ s. record s {
  journal =
      enqueue_event intent.organization (event_name event) (codes "payment_intent") intent.id
        (record {
          order = intent.order;
          status = intent_status_text intent.status;
          version = intent.version;
        })
        (event_key intent event command_id) s.journal;
})

-- The uniqueness of (intent, command_id) in the history.
unfoldable pub history :
    PaymentIntent
    → Option IntentStatus
    → Option ℕ
    → Text
    → Source
    → Reason
    → PaymentService (Unit {0})
history intent from_status actor command_id source why = do
  rows ← gets (λ s. s.payments.history)
  raise_if (any (λ h. h.intent == intent.id && text_eq h.command_id command_id) rows)
      integrity_error
  set_payments (λ t. record t {
    history =
        record {
          organization = intent.organization;
          intent = intent.id;
          from_status = from_status;
          to_status = intent.status;
          actor = actor;
          command_id = command_id;
          source = source;
          reason_code = why;
        }
        ∷ t.history;
  })

-- The audit trail and the outbox, which most services write together.
unfoldable pub record_change :
    PaymentIntent → Option ℕ → PaymentEvent → Text → PaymentService (Unit {0})
record_change intent actor event command_id = do
  audit intent actor event
  outbox intent event command_id

abbrev pub existing_intent : Receipt CommandResult → PaymentService PaymentIntent
existing_intent receipt = do
  or_raise
      (← gets (λ s. elim receipt.result [
        | none ↦ none
        | some r ↦ find (is_intent receipt.organization r.intent) s.payments.intents
      ]))
      idempotency_conflict

abbrev pub has_id : ℕ → ℕ → PaymentAttempt → Bool
has_id organization id a = a.organization == organization && a.id == id

abbrev pub attempt_of_result : Receipt CommandResult → Database → Option PaymentAttempt
attempt_of_result receipt s = elim receipt.result [
  | none ↦ none
  | some r ↦ elim r.attempt [
    | none ↦ none
    | some id ↦ find (has_id receipt.organization id) s.payments.attempts
  ]
]

abbrev pub existing_attempt : Receipt CommandResult → PaymentService PaymentAttempt
existing_attempt receipt = do or_raise (← gets (attempt_of_result receipt)) idempotency_conflict

abbrev pub result_of : PaymentIntent → Option PaymentAttempt → CommandResult
result_of intent none = record { intent = intent.id; attempt = none; version = intent.version }
result_of intent (some attempt) = record {
  intent = intent.id;
  attempt = some attempt.id;
  version = intent.version;
}

-- `at is not None and at > now`
abbrev pub is_later : Option ℕ → ℕ → Bool
is_later none now = false
is_later (some at) now = ltb now at

abbrev pub same_token : Option ℕ → Option ℕ → Bool
same_token none none = true
same_token (some a) (some b) = a == b
same_token _ _ = false

abbrev pub dispatch_lease_seconds : ℕ
dispatch_lease_seconds = 90

abbrev pub dispatch_retry_max_seconds : ℕ
dispatch_retry_max_seconds = 300

-- The seconds before the next try, after a number of tries.
unfoldable pub retry_delay : ℕ → ℕ
retry_delay attempts = min dispatch_retry_max_seconds (5 * 2 ^ min attempts 6)

abbrev pub account_is_active : ℕ → ℕ → Database → Bool
account_is_active organization account s =
    any (λ a. a.organization == organization && a.id == account && a.is_active) s.payments.accounts

unfoldable pub fresh_id : PaymentService ℕ
fresh_id = do
  id ← gets (λ s. s.journal.next_id)
  modify (λ s. record s { journal = record (s.journal) { next_id = suc id } })
  pure id

-- An identifier as a part of a text.
abbrev pub id_text : ℕ → Text
id_text id = id ∷ []
