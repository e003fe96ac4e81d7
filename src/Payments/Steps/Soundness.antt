-- ===== src/Payments/Steps/Soundness.antt =====
-- The tables of payments stay sound.
use vidalys_flow.Common.{sym, All}
use mathlib.Core.Path.{subst}
use vidalys_flow.Database.{Database}
use vidalys_flow.Payments.Tables.{PaymentTables}
use vidalys_flow.Payments.Soundness.{IsValidIntent, IsValidAttempt, IsExclusive, IsSound}
use vidalys_flow.Payments.Soundness.Opening.{
  create_payment_intent-IsSound, request_hosted_checkout-IsSound, activate_hosted_checkout-IsSound,
}
use vidalys_flow.Payments.Soundness.Sending.{
  claim_requested_checkout-IsSound, claim_checkout_cancellation-IsSound,
  release_checkout_lease-IsSound,
}
use vidalys_flow.Payments.Soundness.Answering.{
  apply_verified_provider_resource-IsSound, reconcile_verified_resource-IsSound,
  request_hosted_checkout_cancellation-IsSound,
  complete_cancellation_event_for_terminal_attempt-IsSound,
  apply_verified_checkout_cancellation-IsSound,
}
use vidalys_flow.Payments.Soundness.Closing.{
  reopen_payment_after_verified_closure-IsSound, consume_order_cancelled-IsSound,
}
use vidalys_flow.Payments.Steps.{
  Primitives, Step, Steps, created, asked, claimed, released, activated, notified, reconciled,
  cancellation_asked, cancellation_claimed, cancellation_completed, cancellation_applied, reopens,
  order_cancelled, elsewhere, none_left, and_then,
}

Step-IsSound : (p : Primitives) (s s' : Database) → IsSound s → Step p s s' → IsSound s'
Step-IsSound p s s' sound (created o i actor key r h) =
    (create_payment_intent-IsSound p.payload_hash o i actor key).at s r s' sound h
Step-IsSound p s s' sound (asked o i account actor v key r h) =
    (request_hosted_checkout-IsSound p.payload_hash o i account actor v key).at s r s' sound h
Step-IsSound p s s' sound (claimed a r h) = (claim_requested_checkout-IsSound a).at s r s' sound h
Step-IsSound p s s' sound (released a token error r h) =
    (release_checkout_lease-IsSound a token error).at s r s' sound h
Step-IsSound p s s' sound (activated o a answer key token r h) =
    (activate_hosted_checkout-IsSound p.payload_hash p.urlparse o a answer key token).at s r s'
      sound h
Step-IsSound p s s' sound (notified account notice resource r h) =
    (apply_verified_provider_resource-IsSound p.callback_digest account notice resource).at s r s'
      sound h
Step-IsSound p s s' sound (reconciled o i actor v key resource r h) =
    (reconcile_verified_resource-IsSound p.payload_hash o i actor v key resource).at s r s' sound h
Step-IsSound p s s' sound (cancellation_asked o i actor v key r h) =
    (request_hosted_checkout_cancellation-IsSound p.payload_hash o i actor v key).at s r s' sound h
Step-IsSound p s s' sound (cancellation_claimed a r h) =
    (claim_checkout_cancellation-IsSound a).at s r s' sound h
Step-IsSound p s s' sound (cancellation_completed a e r h) =
    (complete_cancellation_event_for_terminal_attempt-IsSound a e).at s r s' sound h
Step-IsSound p s s' sound (cancellation_applied o a resource key token r h) =
    (apply_verified_checkout_cancellation-IsSound o a resource key token).at s r s' sound h
Step-IsSound p s s' sound (reopens o i actor v key r h) =
    (reopen_payment_after_verified_closure-IsSound p.payload_hash o i actor v key).at s r s' sound h
Step-IsSound p s s' sound (order_cancelled o i e r h) =
    (consume_order_cancelled-IsSound p.event_digest p.payload_hash o i e).at s r s' sound h
Step-IsSound p s s' sound (elsewhere h) = subst Sound (sym h) sound
  where
    Sound : PaymentTables → Type 0
    Sound t = All IsValidIntent t.intents × All IsValidAttempt t.attempts × IsExclusive t.attempts

-- From sound tables, every sequence of services of payments, with any steps of the other
-- applications in between, leads to sound tables: every intent is in BRL with a positive amount and
-- version, has the time of its payment, cancellation or expiry, and a code of attention exactly when
-- it requires attention; every attempt has its lease complete and the resource and address that its
-- status demands; and no intent has two open attempts, nor a resource of an account two attempts.
pub Steps-IsSound : (p : Primitives) (s t : Database) → IsSound s → Steps p s t → IsSound t
Steps-IsSound p s t sound (none_left _) = sound
Steps-IsSound p s t sound (and_then {t = middle} step rest) =
    Steps-IsSound p middle t (Step-IsSound p s middle sound step) rest
