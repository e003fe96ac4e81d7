-- ===== src/Tests/ProviderTests.antt =====
-- What the answers of a provider make of a payment, at a concrete database.
use vidalys_flow.Common.{◌+◌, true, ◌≡◌, refl, false, Bool, some, [], inl, ◌⊎◌}
use vidalys_flow.Text.{codes}
use vidalys_flow.Numeric.{pos}
use vidalys_flow.Platform.Tables.{enqueue_event, record_event}
use vidalys_flow.Transaction.{Outcome, ok, committed}
use vidalys_flow.Database.{Database}
use vidalys_flow.Payments.Tables.{
  mercado_pago, awaiting_payment, IntentStatus, AttemptStatus, processing, cancellation_worker,
  provider_callback, no_reason, PaymentIntent, PaymentAttempt,
}
use vidalys_flow.Payments.Errors.{PaymentError, integrity_error}
use vidalys_flow.Payments.Services.{
  lock_intent, save_intent, save_attempt_or, audit, history, record_change, fresh_id, id_text,
  retry_delay,
}
use vidalys_flow.Payments.Providers.{to, map_provider_status}
use vidalys_flow.Payments.Services.Leases.{claim_checkout_cancellation, release_checkout_lease}
use vidalys_flow.Payments.Resolution.{verdict, changed}
use vidalys_flow.Payments.Resolution.Safety.{IsAdvance, verdict_paid, verdict_advances}
use vidalys_flow.Payments.Services.Providing.{
  Applied, left_alone, apply_resource, canonical_transition, announce,
}
use vidalys_flow.Payments.Services.Providing.Repeats.{apply_resource_once}
use vidalys_flow.Payments.Services.Cancellation.{apply_verified_checkout_cancellation}
use vidalys_flow.Payments.Services.Dispatch.{dispatch_checkout_cancellation}
use vidalys_flow.Tests.Till.{
  active_attempt, answer_of_status, cancelling, decision_of, intent, provider_with,
}

-- A first answer that moves the payment without ending it, and the tables ten minutes later.
abbrev half_way : Database × (PaymentError ⊎ (PaymentAttempt × Bool))
half_way =
    dispatch_checkout_cancellation false (provider_with (codes "in_process")) 51 (id_text 52)
      cancelling

abbrev retried : Database
retried = record (half_way.0) { journal = record (half_way.0.journal) { now = 1600 } }

-- The final answer, under the same event, is refused.
final_answer_refused :
    (dispatch_checkout_cancellation false
      (provider_with (codes "cancelled"))
      51
      (id_text 52)
      retried).1
    ≡ inl integrity_error
unfolding dispatch_checkout_cancellation claim_checkout_cancellation release_checkout_lease
    apply_verified_checkout_cancellation apply_resource verdict map_provider_status
    canonical_transition announce lock_intent save_intent save_attempt_or history record_change
    audit fresh_id enqueue_event record_event retry_delay
final_answer_refused = refl

abbrev awaiting_intent : PaymentIntent
awaiting_intent = record intent { status = awaiting_payment; version = 2 }

abbrev in_process_intent : PaymentIntent
in_process_intent = record intent { status = processing; version = 3 }

cancels_intent :
    verdict mercado_pago in_process_intent active_attempt
      (answer_of_status (codes "cancelled"))
      cancellation_worker
      false
    ≡ changed (decision_of IntentStatus.cancelled)
unfolding verdict map_provider_status
cancels_intent = refl

-- The first answer moves the intent; the same answer a second time leaves it.
abbrev moving : Outcome Database PaymentError Applied
moving =
    apply_resource mercado_pago awaiting_intent active_attempt
      (answer_of_status (codes "in_process")) (id_text 52) cancellation_worker false cancelling

abbrev moved_attempt : PaymentAttempt
moved_attempt = record active_attempt {
  status = AttemptStatus.processing;
  version = active_attempt.version + 1;
}

abbrev first_applied : Applied
first_applied = record {
  intent = in_process_intent;
  attempt = moved_attempt;
  is_changed = true;
  reason = no_reason;
}

moves : moving ≡ ok first_applied (committed moving cancelling)
unfolding apply_resource verdict map_provider_status canonical_transition save_intent
    save_attempt_or history
moves = refl

stays :
    apply_resource mercado_pago in_process_intent moved_attempt
      (answer_of_status (codes "in_process"))
      (id_text 52)
      cancellation_worker
      false
      (committed moving cancelling)
    ≡ ok (left_alone in_process_intent moved_attempt no_reason) (committed moving cancelling)
unfolding apply_resource verdict map_provider_status canonical_transition save_intent
    save_attempt_or history
stays = refl

apply_resource_once_example :
    (false ≡ false)
    × (in_process_intent ≡ in_process_intent)
    × (moved_attempt ≡ moved_attempt)
    × (committed moving cancelling ≡ committed moving cancelling)
apply_resource_once_example =
    apply_resource_once mercado_pago mercado_pago awaiting_intent in_process_intent active_attempt
      moved_attempt (answer_of_status (codes "in_process")) (answer_of_status (codes "in_process"))
      (id_text 52) cancellation_worker cancellation_worker false false cancelling first_applied
      (committed moving cancelling) (committed moving cancelling) []
      (left_alone in_process_intent moved_attempt no_reason) (committed moving cancelling) moves
      refl refl refl stays

pays_intent :
    verdict mercado_pago in_process_intent active_attempt
      (answer_of_status (codes "approved"))
      provider_callback
      false
    ≡ changed (decision_of IntentStatus.paid)
unfolding verdict map_provider_status
pays_intent = refl

verdict_paid_example :
    (pos 300 ≡ pos 300)
    × (codes "BRL" ≡ codes "BRL")
    × (map_provider_status mercado_pago (codes "approved") ≡ some (to IntentStatus.paid))
    × (false ≡ false)
    × (false ≡ false)
    × (false ≡ false)
verdict_paid_example =
    verdict_paid mercado_pago in_process_intent active_attempt (answer_of_status (codes "approved"))
      provider_callback false (decision_of IntentStatus.paid) pays_intent refl

verdict_advances_example : IsAdvance processing cancellation_worker (to IntentStatus.cancelled)
verdict_advances_example =
    verdict_advances mercado_pago in_process_intent active_attempt
      (answer_of_status (codes "cancelled")) cancellation_worker false
      (decision_of IntentStatus.cancelled) cancels_intent

-- A payment that was opened again after its first checkout was cancelled, and has a new checkout. A
-- further notice of the first cancellation cancels the payment.
abbrev first_attempt : PaymentAttempt
first_attempt = record active_attempt { id = 49; status = AttemptStatus.cancelled }

late_notice_cancels :
    verdict mercado_pago intent first_attempt
      (answer_of_status (codes "cancelled"))
      provider_callback
      false
    ≡ changed (decision_of IntentStatus.cancelled)
unfolding verdict map_provider_status
late_notice_cancels = refl
