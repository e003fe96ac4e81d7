-- ===== src/Payments/Soundness/Sending.antt =====
-- The services of the workers that send checkouts keep the tables sound: the claims and the release
-- of leases.
use vidalys_flow.Common.{ℕ, inl, inr, Bool-cases, Bool, true, false, Option, none, some}
use vidalys_flow.Text.{Text}
use vidalys_flow.Transaction.Preserves.{Preserves}
use vidalys_flow.Payments.Tables.{
  DispatchError, no_error, order_not_confirmed, provider_account_inactive, PaymentIntent,
  PaymentAttempt,
}
use vidalys_flow.Payments.Services.{same_token}
use vidalys_flow.Payments.Services.Leases.{
  close_intent, close_ineligible, take_lease, claim_or_close, claim_requested_checkout,
  claim_checkout_cancellation, release_if_held, release_of, release_checkout_lease,
}
use vidalys_flow.Payments.Soundness.{IsValidIntent, IsSound}
use vidalys_flow.Payments.Soundness.Intents.{versioned-IsValidIntent, cancelled-IsValidIntent}
use vidalys_flow.Payments.Soundness.Saves.{saves}

close_intent-IsSound :
    (error : DispatchError) (terminal : Bool) (i : PaymentIntent) (key : Text)
    → IsValidIntent i
    → Preserves IsSound (close_intent error terminal i key)
close_intent-IsSound order_not_confirmed true i key valid = search saves
close_intent-IsSound order_not_confirmed false i key valid =
    search (saves, cancelled-IsValidIntent) depth 30
close_intent-IsSound provider_account_inactive terminal i key valid =
    search (saves, versioned-IsValidIntent) depth 20
close_intent-IsSound _ terminal i key valid = search saves

close_ineligible-IsSound :
    (error : DispatchError) (i : PaymentIntent) (a : PaymentAttempt)
    → IsValidIntent i
    → Preserves IsSound (close_ineligible error i a)
unfolding close_ineligible
close_ineligible-IsSound error i a valid = search (saves, close_intent-IsSound) depth 20

take_lease-IsSound : (a : PaymentAttempt) → Preserves IsSound (take_lease a)
take_lease-IsSound a = search saves depth 20

claim_or_close-IsSound :
    (error : DispatchError) (i : PaymentIntent) (a : PaymentAttempt)
    → IsValidIntent i
    → Preserves IsSound (claim_or_close error i a)
claim_or_close-IsSound no_error i a valid = take_lease-IsSound a
claim_or_close-IsSound _ i a valid = search close_ineligible-IsSound

pub claim_requested_checkout-IsSound :
    (attempt_id : ℕ) → Preserves IsSound (claim_requested_checkout attempt_id)
unfolding claim_requested_checkout
claim_requested_checkout-IsSound attempt_id = search (saves, claim_or_close-IsSound) depth 60

pub claim_checkout_cancellation-IsSound :
    (attempt_id : ℕ) → Preserves IsSound (claim_checkout_cancellation attempt_id)
unfolding claim_checkout_cancellation
claim_checkout_cancellation-IsSound attempt_id = search (take_lease-IsSound, saves) depth 60

release_if_held-IsSound :
    (token : Option ℕ) (error : DispatchError) (a : Option PaymentAttempt)
    → Preserves IsSound (release_if_held token error a)
release_if_held-IsSound token error none = search saves
release_if_held-IsSound token error (some a) = elim (Bool-cases (same_token a.lease_token token)) [
  | inl held ↦ rw (release_if_held, held) (search saves depth 20)
  | inr lost ↦ rw (release_if_held, lost) (search saves)
]

release_of-IsSound :
    (attempt_id : ℕ) (token : Option ℕ) (error : DispatchError) (a : Option PaymentAttempt)
    → Preserves IsSound (release_of attempt_id token error a)
release_of-IsSound attempt_id token error none = search saves
release_of-IsSound attempt_id token error (some a) =
    search (saves, release_if_held-IsSound) depth 20

pub release_checkout_lease-IsSound :
    (attempt_id : ℕ) (token : Option ℕ) (error : DispatchError)
    → Preserves IsSound (release_checkout_lease attempt_id token error)
unfolding release_checkout_lease
release_checkout_lease-IsSound attempt_id token error = search (release_of-IsSound, saves) depth 20
