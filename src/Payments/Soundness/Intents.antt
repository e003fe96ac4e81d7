-- ===== src/Payments/Soundness/Intents.antt =====
-- The changes that the services make to an intent keep it valid.
use vidalys_flow.Common.{
  ℕ, ◌+◌, ◌≡◌, refl, sym, ◌∙◌, inl, inr, Bool, true, false, ◌==◌, Bool-cases, arith,
}
use vidalys_flow.Organizations.{User}
use vidalys_flow.Orders.Tables.{Order}
use vidalys_flow.Payments.Tables.{
  IntentStatus, requires_attention, Reason, is_reason, is_attention, PaymentIntent,
}
use vidalys_flow.Payments.Providers.{Target, to, to_failed}
use vidalys_flow.Payments.Resolution.{Decision, attention_of, moved_intent}
use vidalys_flow.Payments.Services.Checkout.{new_intent, versioned}
use vidalys_flow.Payments.Services.Leases.{cancelled_at_now}
use vidalys_flow.Payments.Services.Activation.{awaiting}
use vidalys_flow.Payments.Services.Closing.{reopened, in_conflict}
use vidalys_flow.Payments.Soundness.{is_stamped, IsValidIntent}

pub new_intent-IsValidIntent :
    (id : ℕ) (order : Order) (actor : User)
    → (order.total == 0) ≡ false
    → IsValidIntent (new_intent id order actor)
new_intent-IsValidIntent id order actor h = record {
  currency_brl = refl;
  amount_positive = ground arith;
  version_positive = omega arith;
  timestamp = refl;
  attention = refl;
}

-- What every change of an intent leaves as it is.
changed-IsValidIntent :
    (i j : PaymentIntent)
    → j.currency ≡ i.currency
    → j.amount ≡ i.amount
    → j.version ≡ i.version + 1
    → is_stamped j.status j ≡ true
    → is_attention j.status ≡ is_reason j.attention_code
    → IsValidIntent i
    → IsValidIntent j
changed-IsValidIntent i j currency amount version timestamp attention h = record {
  currency_brl = cc (h.currency_brl);
  amount_positive = grind (arith, h.amount_positive);
  version_positive = omega arith;
  timestamp = timestamp;
  attention = attention;
}

versioned_stamp :
    (i : PaymentIntent) → is_stamped (versioned i).status (versioned i) ≡ is_stamped i.status i
versioned_stamp i = go i.status
  where
    go : (status : IntentStatus) → is_stamped status (versioned i) ≡ is_stamped status i
    go IntentStatus.pending = refl
    go IntentStatus.awaiting_payment = refl
    go IntentStatus.processing = refl
    go IntentStatus.paid = refl
    go IntentStatus.cancelled = refl
    go IntentStatus.expired = refl
    go IntentStatus.requires_attention = refl

pub versioned-IsValidIntent : (i : PaymentIntent) → IsValidIntent i → IsValidIntent (versioned i)
versioned-IsValidIntent i h =
    changed-IsValidIntent i (versioned i) refl refl refl (versioned_stamp i ∙ h.timestamp)
      (h.attention) h

pub cancelled-IsValidIntent :
    (now : ℕ) (i : PaymentIntent) → IsValidIntent i → IsValidIntent (cancelled_at_now now i)
cancelled-IsValidIntent now i h =
    changed-IsValidIntent i (cancelled_at_now now i) refl refl refl refl refl h

pub awaiting-IsValidIntent :
    (c : Bool) (i : PaymentIntent) → IsValidIntent i → IsValidIntent (awaiting c i)
awaiting-IsValidIntent true i h =
    changed-IsValidIntent i (awaiting true i) refl refl refl refl refl h
awaiting-IsValidIntent false i h =
    changed-IsValidIntent i (awaiting false i) refl refl refl refl refl h

pub reopened-IsValidIntent : (i : PaymentIntent) → IsValidIntent i → IsValidIntent (reopened i)
reopened-IsValidIntent i h = changed-IsValidIntent i (reopened i) refl refl refl refl refl h

pub in_conflict-IsValidIntent :
    (i : PaymentIntent) → IsValidIntent i → IsValidIntent (in_conflict i)
in_conflict-IsValidIntent i h = changed-IsValidIntent i (in_conflict i) refl refl refl refl refl h

attention_is_reason : (why : Reason) → is_reason (attention_of (to requires_attention) why) ≡ true
attention_is_reason why = elim (Bool-cases (is_reason why)) [
  | inl given ↦ rw (attention_of, given) given
  | inr none_given ↦ rw (attention_of, none_given) refl
]

pub moved_intent-IsValidIntent :
    (now : ℕ) (d : Decision) (i : PaymentIntent)
    → IsValidIntent i
    → IsValidIntent (moved_intent now d i)
moved_intent-IsValidIntent now d i h = go d.target d.reason
  where
    go :
        (target : Target) (why : Reason)
        → IsValidIntent (moved_intent now (record { target = target; reason = why }) i)
    go to_failed why = changed-IsValidIntent i _ refl refl refl refl refl h
    go (to IntentStatus.pending) why = changed-IsValidIntent i _ refl refl refl refl refl h
    go (to IntentStatus.awaiting_payment) why = changed-IsValidIntent i _ refl refl refl refl refl h
    go (to IntentStatus.processing) why = changed-IsValidIntent i _ refl refl refl refl refl h
    go (to IntentStatus.paid) why = changed-IsValidIntent i _ refl refl refl refl refl h
    go (to IntentStatus.cancelled) why = changed-IsValidIntent i _ refl refl refl refl refl h
    go (to IntentStatus.expired) why = changed-IsValidIntent i _ refl refl refl refl refl h
    go (to IntentStatus.requires_attention) why =
        changed-IsValidIntent i _ refl refl refl refl (sym (attention_is_reason why)) h
