-- ===== src/Payments/Resolution.antt =====
-- What `_apply_resource_to_locked_attempt` of apps/payments/services.py makes of a resource that a
-- provider has confirmed, and what `_canonical_transition` writes.
pub mod Safety
use vidalys_flow.Common.{
  ℕ, ◌+◌, Bool, true, false, not, ◌&&◌, ◌||◌, Option, none, some, ◌==◌, if◌then◌else◌,
}
use vidalys_flow.Text.{Text, text_eq}
use vidalys_flow.Numeric.{ℤ, pos, negsuc}
use vidalys_flow.Payments.Tables.{
  Provider, IntentStatus, pending, awaiting_payment, requires_attention, same_intent_status,
  is_terminal_intent, is_pending, is_attention, AttemptStatus, Source, command, provider_worker,
  provider_callback, reconciliation, cancellation_worker, order_event, Reason, no_reason,
  unknown_provider_status, amount_or_currency_mismatch, order_cancelled_with_paid_payment,
  non_monotonic_provider_event, provider_inconsistency, is_reason, PaymentIntent, PaymentAttempt,
}
use vidalys_flow.Payments.Providers.{Target, to, to_failed, ProviderResource, map_provider_status}

abbrev pub same_target : Target → Target → Bool
same_target (to a) (to b) = same_intent_status a b
same_target (to a) to_failed = false
same_target to_failed (to b) = false
same_target to_failed to_failed = true

-- A target with the code of its reason.
pub record Decision : Type 0 where
  pub target : Target
  pub reason : Reason

-- A status that the provider's table lacks is an error, but a matter of attention where the worker
-- of cancellations asks.
abbrev pub read_status : Source → Option Target → Option Decision
read_status source (some target) = some (record { target = target; reason = no_reason })
read_status cancellation_worker none =
    some (record { target = to requires_attention; reason = unknown_provider_status })
read_status _ none = none

-- `resource.amount_minor == int(intent.amount * 100)`
abbrev pub same_amount : ℤ → ℕ → Bool
same_amount (pos n) amount = n == amount
same_amount (negsuc n) amount = false

abbrev pub matches : PaymentIntent → ProviderResource → Bool
matches intent resource =
    text_eq resource.currency intent.currency && same_amount resource.amount_minor intent.amount

-- The checks of the amount and of a cancelled order; the second is made only by the worker of
-- cancellations, which knows the order.
abbrev pub check_amount : Bool → Bool → Decision → Decision
check_amount false order_cancelled d = record {
  target = to requires_attention;
  reason = amount_or_currency_mismatch;
}
check_amount true false d = d
check_amount true true d =
    if same_target d.target (to IntentStatus.paid)
    then record { target = to requires_attention; reason = order_cancelled_with_paid_payment }
    else d

abbrev pub terminal_attempt_target : AttemptStatus → Option Target
terminal_attempt_target AttemptStatus.paid = some (to IntentStatus.paid)
terminal_attempt_target AttemptStatus.failed = some to_failed
terminal_attempt_target AttemptStatus.cancelled = some (to IntentStatus.cancelled)
terminal_attempt_target AttemptStatus.expired = some (to IntentStatus.expired)
terminal_attempt_target _ = none

abbrev pub not_monotonic : Decision
not_monotonic = record { target = to requires_attention; reason = non_monotonic_provider_event }

-- A closed attempt does not change its result.
abbrev pub check_attempt : Option Target → Decision → Decision
check_attempt none d = d
check_attempt (some closed) d = if same_target d.target closed then d else not_monotonic

-- `MONOTONIC_PROVIDER_TRANSITIONS`
abbrev pub may_advance : IntentStatus → IntentStatus → Bool
may_advance IntentStatus.pending IntentStatus.pending = false
may_advance IntentStatus.pending _ = true
may_advance IntentStatus.awaiting_payment IntentStatus.pending = false
may_advance IntentStatus.awaiting_payment IntentStatus.awaiting_payment = false
may_advance IntentStatus.awaiting_payment _ = true
may_advance IntentStatus.processing IntentStatus.paid = true
may_advance IntentStatus.processing IntentStatus.cancelled = true
may_advance IntentStatus.processing IntentStatus.expired = true
may_advance IntentStatus.processing IntentStatus.requires_attention = true
may_advance _ _ = false

-- Whether an intent of the status may take the target.
abbrev pub fits : IntentStatus → Target → Bool
fits status to_failed = not (is_terminal_intent status)
fits status (to target) =
    same_intent_status target status
    || (not (is_terminal_intent status) && (is_attention status || may_advance status target))

abbrev pub check_intent : IntentStatus → Decision → Decision
check_intent status d = if fits status d.target then d else not_monotonic

-- The sources that may resolve what requires attention.
abbrev pub may_resolve : Source → Bool
may_resolve reconciliation = true
may_resolve cancellation_worker = true
may_resolve _ = false

abbrev pub is_failed : AttemptStatus → Bool
is_failed AttemptStatus.failed = true
is_failed _ = false

abbrev pub changes : IntentStatus → AttemptStatus → Target → Bool
changes intent attempt to_failed = not (is_failed attempt) || not (is_pending intent)
changes intent attempt (to target) = not (same_intent_status target intent)

-- How the function ends: with the error of an unknown status, with nothing done because of the
-- attention that is due, with nothing to change, or with a change to make.
pub data Verdict : Type 0 where
  unknown_status attention_locked : Verdict
  unchanged : Reason → Verdict
  changed : Decision → Verdict

abbrev pub conclude : IntentStatus → AttemptStatus → Source → Decision → Verdict
conclude intent attempt source d =
    if is_attention intent && not (may_resolve source)
    then attention_locked
    else (let d' = check_intent intent d in
        if changes intent attempt d'.target then changed d' else unchanged d'.reason)

unfoldable pub verdict :
    Provider → PaymentIntent → PaymentAttempt → ProviderResource → Source → Bool → Verdict
verdict provider intent attempt resource source order_cancelled =
    elim (read_status source (map_provider_status provider resource.status)) [
      | none ↦ unknown_status
      | some d ↦ conclude intent.status attempt.status source (
          check_attempt (terminal_attempt_target attempt.status)
            (check_amount (matches intent resource) order_cancelled d))
    ]

-- The status of the intent after a transition; a failure opens the payment again.
abbrev pub intent_status_of : Target → IntentStatus
intent_status_of to_failed = pending
intent_status_of (to status) = status

abbrev pub attention_of : Target → Reason → Reason
attention_of (to IntentStatus.requires_attention) why =
    if is_reason why then why else provider_inconsistency
attention_of _ why = no_reason

abbrev pub attempt_under_attention : Reason → AttemptStatus → AttemptStatus
attempt_under_attention order_cancelled_with_paid_payment status = AttemptStatus.paid
attempt_under_attention _ AttemptStatus.requested = AttemptStatus.processing
attempt_under_attention _ AttemptStatus.active = AttemptStatus.processing
attempt_under_attention _ status = status

-- No status of a provider is read as pending, so that the table of the source needs no such row.
abbrev pub attempt_status_of : Target → Reason → AttemptStatus → AttemptStatus
attempt_status_of to_failed why status = AttemptStatus.failed
attempt_status_of (to IntentStatus.pending) why status = status
attempt_status_of (to IntentStatus.awaiting_payment) why status = AttemptStatus.active
attempt_status_of (to IntentStatus.processing) why status = AttemptStatus.processing
attempt_status_of (to IntentStatus.paid) why status = AttemptStatus.paid
attempt_status_of (to IntentStatus.cancelled) why status = AttemptStatus.cancelled
attempt_status_of (to IntentStatus.expired) why status = AttemptStatus.expired
attempt_status_of (to IntentStatus.requires_attention) why status =
    attempt_under_attention why status

-- The timestamp of a status that has one.
abbrev pub stamped : IntentStatus → ℕ → PaymentIntent → PaymentIntent
stamped IntentStatus.paid now intent = record intent { paid_at = some now }
stamped IntentStatus.cancelled now intent = record intent { cancelled_at = some now }
stamped IntentStatus.expired now intent = record intent { expired_at = some now }
stamped _ now intent = intent

abbrev pub moved_intent : ℕ → Decision → PaymentIntent → PaymentIntent
moved_intent now d intent = stamped (intent_status_of d.target) now (record intent {
  status = intent_status_of d.target;
  attention_code = attention_of d.target d.reason;
  version = intent.version + 1;
})

abbrev pub moved_attempt : Decision → PaymentAttempt → PaymentAttempt
moved_attempt d attempt = record attempt {
  status = attempt_status_of d.target d.reason attempt.status;
  version = attempt.version + 1;
}
