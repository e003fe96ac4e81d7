-- ===== src/Payments/Tables.antt =====
-- The rows of apps/payments/models.py. Amounts are in cents. Codes that the source keeps as texts are
-- enumerated: the status of an intent and of an attempt, the source of a change, the reason codes
-- and the codes of dispatch errors.
use vidalys_flow.Common.{ℕ, Bool, true, false, Option, List, ◌==◌}
use vidalys_flow.Text.{Text, codes}
use vidalys_flow.Idempotency.{Receipt}

pub data Provider : Type 0 where
  mercado_pago pagarme : Provider

abbrev pub same_provider : Provider → Provider → Bool
same_provider mercado_pago mercado_pago = true
same_provider pagarme pagarme = true
same_provider _ _ = false

pub record ProviderAccount : Type 0 where
  pub id : ℕ
  pub organization : ℕ
  pub provider : Provider
  pub is_active : Bool
  pub callbacks_enabled : Bool

pub data IntentStatus : Type 0 where
  pending awaiting_payment processing paid cancelled expired requires_attention : IntentStatus

abbrev pub intent_status_text : IntentStatus → Text
intent_status_text pending = codes "pending"
intent_status_text awaiting_payment = codes "awaiting_payment"
intent_status_text IntentStatus.processing = codes "processing"
intent_status_text IntentStatus.paid = codes "paid"
intent_status_text IntentStatus.cancelled = codes "cancelled"
intent_status_text IntentStatus.expired = codes "expired"
intent_status_text requires_attention = codes "requires_attention"

-- The place of a status in the enumeration, by which statuses are compared.
abbrev pub intent_rank : IntentStatus → ℕ
intent_rank pending = 0
intent_rank awaiting_payment = 1
intent_rank IntentStatus.processing = 2
intent_rank IntentStatus.paid = 3
intent_rank IntentStatus.cancelled = 4
intent_rank IntentStatus.expired = 5
intent_rank requires_attention = 6

abbrev pub same_intent_status : IntentStatus → IntentStatus → Bool
same_intent_status a b = intent_rank a == intent_rank b

-- `TERMINAL_INTENT_STATUSES`
abbrev pub is_terminal_intent : IntentStatus → Bool
is_terminal_intent IntentStatus.paid = true
is_terminal_intent IntentStatus.cancelled = true
is_terminal_intent IntentStatus.expired = true
is_terminal_intent _ = false

abbrev pub is_pending : IntentStatus → Bool
is_pending pending = true
is_pending _ = false

abbrev pub is_attention : IntentStatus → Bool
is_attention requires_attention = true
is_attention _ = false

pub data AttemptStatus : Type 0 where
  requested active processing paid failed cancelled expired : AttemptStatus

-- `ACTIVE_ATTEMPT_STATUSES`, and the condition of the constraint `payment_attempt_one_active`.
abbrev pub is_open : AttemptStatus → Bool
is_open requested = true
is_open active = true
is_open AttemptStatus.processing = true
is_open _ = false

abbrev pub is_requested : AttemptStatus → Bool
is_requested requested = true
is_requested _ = false

-- `ACTIVE` and `PROCESSING`, which a cancellation may close.
abbrev pub is_cancellable : AttemptStatus → Bool
is_cancellable active = true
is_cancellable AttemptStatus.processing = true
is_cancellable _ = false

-- `FAILED`, `CANCELLED` and `EXPIRED`, after which a payment may be opened again.
abbrev pub is_closed_unpaid : AttemptStatus → Bool
is_closed_unpaid failed = true
is_closed_unpaid AttemptStatus.cancelled = true
is_closed_unpaid AttemptStatus.expired = true
is_closed_unpaid _ = false

pub data Source : Type 0 where
  command provider_worker provider_callback reconciliation cancellation_worker order_event : Source

-- The codes of reasons and of attention; `no_reason` is the empty text.
pub data Reason : Type 0 where
  no_reason unknown_provider_status amount_or_currency_mismatch : Reason
  order_cancelled_with_paid_payment non_monotonic_provider_event requires_attention_locked : Reason
  provider_inconsistency dispatch_context_changed order_cancelled_reason : Reason
  order_cancelled_with_open_or_paid_payment verified_attempt_closed : Reason
  order_not_confirmed_reason : Reason

abbrev pub is_reason : Reason → Bool
is_reason no_reason = false
is_reason _ = true

-- The codes of `dispatch_error_code`; `no_error` is the empty text.
pub data DispatchError : Type 0 where
  no_error order_not_confirmed intent_not_pending provider_account_inactive : DispatchError
  timeout external_effect_blocked transport_error provider_error : DispatchError
  cancelled_before_dispatch cancellation_pending order_was_cancelled : DispatchError

abbrev pub is_error : DispatchError → Bool
is_error no_error = false
is_error _ = true

pub record PaymentIntent : Type 0 where
  pub id : ℕ
  pub organization : ℕ
  pub order : ℕ
  pub status : IntentStatus
  pub currency : Text
  pub amount : ℕ
  pub order_number : ℕ
  pub customer_name : Text
  pub version : ℕ
  pub created_by : ℕ
  pub paid_at : Option ℕ
  pub cancelled_at : Option ℕ
  pub expired_at : Option ℕ
  pub attention_code : Reason

pub record PaymentAttempt : Type 0 where
  pub id : ℕ
  pub organization : ℕ
  pub intent : ℕ
  pub provider_account : ℕ
  pub provider : Provider
  pub status : AttemptStatus
  pub provider_idempotency_key : Text
  pub external_resource_id : Text
  pub hosted_url : Text
  pub expires_at : Option ℕ
  pub lease_token : Option ℕ
  pub lease_expires_at : Option ℕ
  pub dispatch_attempts : ℕ
  pub available_at : Option ℕ
  pub error_code : DispatchError
  pub cancellation_event : Option ℕ
  pub cancellation_completed_at : Option ℕ
  pub version : ℕ

pub record PaymentStatusHistory : Type 0 where
  pub organization : ℕ
  pub intent : ℕ
  pub from_status : Option IntentStatus
  pub to_status : IntentStatus
  pub actor : Option ℕ
  pub command_id : Text
  pub source : Source
  pub reason_code : Reason

pub record WebhookReceipt : Type 0 where
  pub organization : ℕ
  pub provider_account : ℕ
  pub external_event_id : Text
  pub external_resource_id : Text
  pub authenticated_request_id_digest : Text
  pub request_digest : Text
  pub canonical_result : IntentStatus

-- The columns of a completed receipt.
pub record CommandResult : Type 0 where
  pub intent : ℕ
  pub attempt : Option ℕ
  pub version : ℕ

-- Attempts stand in the order of their creation, the newest first.
pub record PaymentTables : Type 0 where
  pub accounts : List ProviderAccount
  pub intents : List PaymentIntent
  pub attempts : List PaymentAttempt
  pub history : List PaymentStatusHistory
  pub webhooks : List WebhookReceipt
  pub receipts : List (Receipt CommandResult)
