-- ===== src/Payments/Soundness/Closing.antt =====
-- The services that reopen a payment and that close it with its order keep the tables sound.
use vidalys_flow.Common.{ℕ, Bool, true, false, Option, none, some, find, find-All}
use vidalys_flow.Text.{Text}
use vidalys_flow.Organizations.{User}
use vidalys_flow.Idempotency.Invariant.{once-Preserves}
use vidalys_flow.Transaction.{◌>>=◌, gets, or_raise, or_raise-bind}
use vidalys_flow.Transaction.Preserves.{Preserves, Preserves-then}
use vidalys_flow.Payments.Tables.{IntentStatus, PaymentIntent, PaymentAttempt}
use vidalys_flow.Payments.Errors.{PaymentError, PaymentService}
use vidalys_flow.Payments.Services.{payment_receipts}
use vidalys_flow.Payments.Services.Checkout.{PaymentRequest}
use vidalys_flow.Payments.Services.Closing.{
  reopening_history, reopen_payment_after_verified_closure_work,
  reopen_payment_after_verified_closure, Closure, closes, needs_attention, stays, close_unsent,
  close_attempt, close_payment, consume_order_cancelled_work, consume_order_cancelled,
}
use vidalys_flow.Payments.Soundness.{IsValidIntent, IsSound}
use vidalys_flow.Payments.Soundness.Intents.{
  reopened-IsValidIntent, cancelled-IsValidIntent, in_conflict-IsValidIntent,
}
use vidalys_flow.Payments.Soundness.Saves.{require_manager-IsSound, existing_intent-IsSound, saves}

reopening_history-IsSound :
    (pending : Bool) (i : PaymentIntent) (status : IntentStatus) (actor : User) (key : Text)
    → Preserves IsSound (reopening_history pending i status actor key)
reopening_history-IsSound true i status actor key = search saves
reopening_history-IsSound false i status actor key = search saves

reopen_payment_after_verified_closure_work-IsSound :
    (organization intent_id : ℕ) (actor : User) (expected_version : ℕ) (key : Text)
    → Preserves IsSound (
        reopen_payment_after_verified_closure_work organization intent_id actor expected_version
          key)
unfolding reopen_payment_after_verified_closure_work
reopen_payment_after_verified_closure_work-IsSound organization intent_id actor expected_version
      key =
    search (reopening_history-IsSound, reopened-IsValidIntent, saves) depth 60 fits 20000

pub reopen_payment_after_verified_closure-IsSound :
    (payload_hash : PaymentRequest → ℕ) (organization intent_id : ℕ) (actor : User)
    (expected_version : ℕ) (key : Text)
    → Preserves IsSound (
        reopen_payment_after_verified_closure payload_hash organization intent_id actor
          expected_version key)
unfolding reopen_payment_after_verified_closure
reopen_payment_after_verified_closure-IsSound payload_hash organization intent_id actor
      expected_version key =
    Preserves-then IsSound _ _ (require_manager-IsSound actor organization) (
      once-Preserves payment_receipts _ IsSound (λ t s h. h) _ _ _ _ _ _
        (reopen_payment_after_verified_closure_work-IsSound organization intent_id actor
          expected_version key)
        existing_intent-IsSound)

close_unsent-IsSound :
    (unsent : Bool) (a : PaymentAttempt) (status : IntentStatus)
    → Preserves IsSound (close_unsent unsent a status)
close_unsent-IsSound true a status = search saves
close_unsent-IsSound false a status = search saves

close_attempt-IsSound :
    (a : Option PaymentAttempt) (status : IntentStatus) → Preserves IsSound (close_attempt a status)
close_attempt-IsSound none status = search saves
close_attempt-IsSound (some a) status = close_unsent-IsSound _ a status

close_payment-IsSound :
    (c : Closure) (i : PaymentIntent) (key : Text)
    → IsValidIntent i
    → Preserves IsSound (close_payment c i key)
close_payment-IsSound stays i key valid = search saves
close_payment-IsSound closes i key valid = search (saves, cancelled-IsValidIntent) depth 30
close_payment-IsSound needs_attention i key valid =
    search (saves, in_conflict-IsValidIntent) depth 30

-- An intent that is found by its order is valid.
found_intent-IsSound :
    {B : Type 0} (p : PaymentIntent → Bool) (error : PaymentError)
    (k : PaymentIntent → PaymentService B)
    → ((i : PaymentIntent) → IsValidIntent i → Preserves IsSound (k i))
    → Preserves IsSound
        (do found ← gets (λ s. find p s.payments.intents); i ← or_raise found error; k i)
found_intent-IsSound p error k hk = record {
  at = λ s b s' sound h.
      let (i, found, rest) = or_raise-bind (find p s.payments.intents) error k s h in
      (hk i (find-All IsValidIntent p s.payments.intents i found sound.0)).at s b s' sound rest;
}

consume_order_cancelled_work-IsSound :
    (organization order_id : ℕ) (key : Text)
    → Preserves IsSound (consume_order_cancelled_work organization order_id key)
unfolding consume_order_cancelled_work
consume_order_cancelled_work-IsSound organization order_id key =
    search (found_intent-IsSound, close_attempt-IsSound, close_payment-IsSound, saves) depth 60 fits
      20000

pub consume_order_cancelled-IsSound :
    (event_digest : ℕ → ℕ → Text) (payload_hash : PaymentRequest → ℕ)
    (organization order_id source_event_id : ℕ)
    → Preserves IsSound
        (consume_order_cancelled event_digest payload_hash organization order_id source_event_id)
unfolding consume_order_cancelled
consume_order_cancelled-IsSound event_digest payload_hash organization order_id source_event_id =
    once-Preserves payment_receipts _ IsSound (λ t s h. h) _ _ _ _ _ _
      (consume_order_cancelled_work-IsSound organization order_id
        (event_digest source_event_id order_id))
      existing_intent-IsSound
