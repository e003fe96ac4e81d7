-- ===== src/Payments/Tasks.antt =====
-- apps/payments/tasks.py: the tasks that send the requested checkouts and cancellations. Each
-- handles a number of outbox events, the oldest first, and passes over those that fail.
pub mod Idle
pub mod Resting
use vidalys_flow.Common.{
  ℕ, ◌+◌, Bool, true, false, not, ◌&&◌, Option, none, some, List, [], ◌∷◌, map, any, find, select,
  reverse, take, ◌==◌, ◌⊎◌, inl, inr,
}
use vidalys_flow.Text.{Text, codes, text_eq}
use vidalys_flow.Transaction.{ok, raised, gets}
use vidalys_flow.Transaction.Process.{◌>>=◌, ◌>>◌, ask, transact}
use vidalys_flow.Platform.Tables.{OutboxEvent}
use vidalys_flow.Platform.Outbox.{mark_success}
use vidalys_flow.Database.{Database}
use vidalys_flow.Payments.Tables.{PaymentAttempt, is_requested, is_cancellable}
use vidalys_flow.Payments.Errors.{PaymentError, PaymentService, does_not_exist}
use vidalys_flow.Payments.Providers.{Adapter}
use vidalys_flow.Payments.Services.{
  checkout_requested, cancellation_requested, event_name, is_later, id_text,
}
use vidalys_flow.Payments.Services.Checkout.{PaymentRequest}
use vidalys_flow.Payments.Services.Activation.{ParsedUrl}
use vidalys_flow.Payments.Services.Cancellation.{
  is_cancellation_pending, same_event, complete_cancellation_event_for_terminal_attempt,
}
use vidalys_flow.Payments.Services.Dispatch.{
  PaymentProcess, dispatch_requested_checkout, dispatch_checkout_cancellation,
}

-- The requested attempts that do not wait for their next try.
abbrev pub is_due_attempt : ℕ → PaymentAttempt → Bool
is_due_attempt now a = is_requested a.status && not (is_later a.available_at now)

abbrev pub is_request_event : List ℕ → OutboxEvent → Bool
is_request_event intents e =
    text_eq e.event_type (event_name checkout_requested) && any (λ i. i == e.aggregate) intents

abbrev pub request_events : ℕ → Database → List OutboxEvent
request_events limit s =
    let due = select (is_due_attempt s.journal.now) s.payments.attempts in
    take limit (select (is_request_event (map (λ a. a.intent) due)) (reverse s.journal.outbox))

-- The oldest requested attempt of the intent that an event names.
abbrev pub attempt_of_event : OutboxEvent → Database → Option PaymentAttempt
attempt_of_event e s =
    find (λ a. a.organization == e.organization && a.intent == e.aggregate && is_requested a.status)
      (reverse s.payments.attempts)

-- An event that was handled counts; one that failed is passed over.
abbrev pub counted : {A : Type 0} → Database × (PaymentError ⊎ A) → Database × (PaymentError ⊎ ℕ)
counted (s, inl e) = (s, inr 0)
counted (s, inr a) = (s, inr 1)

-- One turn after the other; the numbers that they return are added.
abbrev pub each : (OutboxEvent → PaymentProcess ℕ) → List OutboxEvent → PaymentProcess ℕ
each turn [] = ask (inr 0)
each turn (e ∷ es) = do n ← turn e; m ← each turn es; ask (inr (n + m))

abbrev pub is_cancellation_event : List ℕ → OutboxEvent → Bool
is_cancellation_event attempts e =
    text_eq e.event_type (event_name cancellation_requested)
    && text_eq e.aggregate_type (codes "payment_attempt")
    && any (λ a. a == e.aggregate) attempts

abbrev pub cancellation_events : ℕ → Database → List OutboxEvent
cancellation_events limit s =
    let waiting = select is_cancellation_pending s.payments.attempts in
    take limit (select (is_cancellation_event (map (λ a. a.id) waiting)) (reverse s.journal.outbox))

abbrev pub attempt_of_cancellation : OutboxEvent → Database → Option PaymentAttempt
attempt_of_cancellation e s =
    find
      (λ a.
        a.organization == e.organization
        && a.id == e.aggregate
        && same_event a.cancellation_event e.id
        && is_cancellation_pending a)
      s.payments.attempts

-- `mark_success` of the queue, as a service of the whole database.
abbrev pub mark_event : ℕ → PaymentService (Unit {0})
mark_event event_id s = elim (mark_success event_id s.journal) [
  | raised e ↦ raised does_not_exist
  | ok event journal ↦ ok tt (record s { journal = journal })
]

abbrev pub mark_done : OutboxEvent → PaymentProcess ℕ
mark_done e = do transact (mark_event e.id); ask (inr 1)

abbrev pub mark_if_complete :
    OutboxEvent
    → Database × (PaymentError ⊎ (PaymentAttempt × Bool))
    → Database × (PaymentError ⊎ ℕ)
mark_if_complete e (s, inl error) = (s, inr 0)
mark_if_complete e (s, inr (attempt, false)) = (s, inr 0)
mark_if_complete e (s, inr (attempt, true)) = mark_done e s

-- `adapter_resolver` is a parameter.
module _ (urlparse : Text → ParsedUrl) (payload_hash : PaymentRequest → ℕ) (demo_mode : Bool)
    (adapter_resolver : PaymentAttempt → Adapter) where
  abbrev pub send_event : OutboxEvent → Option PaymentAttempt → PaymentProcess ℕ
  send_event e none s = (s, inr 0)
  send_event e (some attempt) s = counted (
      dispatch_requested_checkout urlparse payload_hash demo_mode (adapter_resolver attempt)
        attempt.id (id_text e.id) s)

  unfoldable pub dispatch_checkout_events : ℕ → PaymentProcess ℕ
  dispatch_checkout_events limit s =
      each (λ e t. send_event e (attempt_of_event e t) t) (request_events limit s) s

module _ (demo_mode : Bool) (adapter_resolver : PaymentAttempt → Adapter) where
  abbrev pub cancel_if_due : Bool → OutboxEvent → PaymentAttempt → PaymentProcess ℕ
  cancel_if_due false e attempt s = (s, inr 0)
  cancel_if_due true e attempt s = mark_if_complete e (
      dispatch_checkout_cancellation demo_mode (adapter_resolver attempt) attempt.id (id_text e.id)
        s)

  abbrev pub cancel_unless_done : Bool → OutboxEvent → PaymentAttempt → PaymentProcess ℕ
  cancel_unless_done true e attempt = mark_done e
  cancel_unless_done false e attempt = do
    now ← transact (gets (λ s. s.journal.now))
    cancel_if_due (is_cancellable attempt.status && not (is_later attempt.available_at now)) e
        attempt

  abbrev pub cancel_event : OutboxEvent → Option PaymentAttempt → PaymentProcess ℕ
  cancel_event e none = ask (inr 0)
  cancel_event e (some attempt) = do
    is_done ← transact (complete_cancellation_event_for_terminal_attempt attempt.id e.id)
    cancel_unless_done is_done e attempt

  unfoldable pub dispatch_checkout_cancellation_events : ℕ → PaymentProcess ℕ
  dispatch_checkout_cancellation_events limit s =
      each (λ e t. cancel_event e (attempt_of_cancellation e t) t) (cancellation_events limit s) s
