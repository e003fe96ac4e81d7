-- ===== src/Payments/Soundness/Saves.antt =====
-- The steps that the services share keep the tables sound.
use vidalys_flow.Common.{ℕ, sym, Option, any, find, find-All, replace-All, ◌==◌}
use mathlib.Core.Path.{subst}
use vidalys_flow.Text.{Text}
use vidalys_flow.Organizations.{User}
use vidalys_flow.Idempotency.{Receipt}
use vidalys_flow.Transaction.{◌>>=◌, unless-bind, raise_if-bind, outcome_state}
use vidalys_flow.Transaction.Preserves.{
  Preserves, Preserves-learn, Learns, Learns-read, Learns-bind, Learns-chain, Learns-forget,
  Learns-pure, Preserves-unless, Preserves-then, Preserves-modify, preserves_rules,
}
use vidalys_flow.Orders.Tables.{Order}
use vidalys_flow.Payments.Tables.{IntentStatus, Source, Reason, PaymentIntent, PaymentAttempt}
use vidalys_flow.Payments.Errors.{PaymentError, PaymentService}
use vidalys_flow.Payments.Services.{
  PaymentEvent, require_manager, lock_order, is_intent, find_intent, lock_intent, save_intent,
  conflicts, is_valid_attempt, save_attempt_or, audit, history, record_change, fresh_id,
  existing_intent, existing_attempt,
}
use vidalys_flow.Payments.Soundness.{IsValidIntent, IsValidAttempt, IsSound}
use vidalys_flow.Payments.Soundness.Rows.{replace-IsExclusive}

pub lock_order-IsSound : (organization id : ℕ) → Preserves IsSound (lock_order organization id)
lock_order-IsSound organization id = search preserves_rules depth 20

find_intent-IsSound :
    (organization id : ℕ) → Learns IsSound (find_intent organization id) IsValidIntent
find_intent-IsSound organization id =
    Learns-read IsSound (λ s. find (is_intent organization id) s.payments.intents) _
      λ s i sound e.
        find-All IsValidIntent (is_intent organization id) s.payments.intents i e sound.0

pub lock_intent-IsSound :
    (organization id : ℕ)
    → Learns IsSound (lock_intent organization id) (λ locked. IsValidIntent locked.1)
unfolding lock_intent
lock_intent-IsSound organization id =
    Learns-bind IsSound _ _ (Learns-forget IsSound _ (find_intent-IsSound organization id))
      λ reference.
        Learns-bind IsSound _ _ (lock_order-IsSound organization reference.order) λ order.
          Learns-chain IsSound _ _ (find_intent-IsSound organization id) λ i valid.
            Learns-bind IsSound _ _ (Preserves-unless IsSound _ _)
              λ _. Learns-pure IsSound (order, i) valid

pub save_intent-IsSound : (i : PaymentIntent) → IsValidIntent i → Preserves IsSound (save_intent i)
unfolding save_intent
save_intent-IsSound i valid = Preserves-modify IsSound _ λ s sound. (
  replace-All IsValidIntent (λ j. j.id == i.id) i s.payments.intents valid sound.0,
  sound.1,
  sound.2,
)

pub save_attempt-IsSound :
    (error : PaymentError) (a : PaymentAttempt) → Preserves IsSound (save_attempt_or error a)
unfolding save_attempt_or
save_attempt-IsSound error a = record {
  at = λ s u s' (intents, valid, exclusive) h.
      let (fit, rest) = unless-bind (is_valid_attempt a) error _ s h in
      let (free, saved) = raise_if-bind (any (conflicts a) s.payments.attempts) error _ s rest in
      subst IsSound (sym (outcome_state saved)) (
        intents,
        replace-All IsValidAttempt (λ b. b.id == a.id) a s.payments.attempts fit valid,
        replace-IsExclusive a (λ b. b.id == a.id) s.payments.attempts free exclusive,
      );
}

pub audit-IsSound :
    (i : PaymentIntent) (actor : Option ℕ) (e : PaymentEvent) → Preserves IsSound (audit i actor e)
unfolding audit
audit-IsSound i actor e = Preserves-modify IsSound _ λ s h. h

pub record_change-IsSound :
    (i : PaymentIntent) (actor : Option ℕ) (e : PaymentEvent) (command_id : Text)
    → Preserves IsSound (record_change i actor e command_id)
unfolding record_change
record_change-IsSound i actor e command_id =
    Preserves-then IsSound _ _ (audit-IsSound i actor e) (Preserves-modify IsSound _ λ s h. h)

pub history-IsSound :
    (i : PaymentIntent) (from_status : Option IntentStatus) (actor : Option ℕ) (command_id : Text)
    (source : Source) (why : Reason)
    → Preserves IsSound (history i from_status actor command_id source why)
unfolding history
history-IsSound i from_status actor command_id source why = search preserves_rules depth 20

pub fresh_id-IsSound : Preserves IsSound fresh_id
unfolding fresh_id
fresh_id-IsSound = search preserves_rules depth 20

pub existing_intent-IsSound : (r : Receipt _) → Preserves IsSound (existing_intent r)
existing_intent-IsSound r = search preserves_rules depth 20

pub existing_attempt-IsSound : (r : Receipt _) → Preserves IsSound (existing_attempt r)
existing_attempt-IsSound r = search preserves_rules depth 20

pub require_manager-IsSound :
    (actor : User) (organization : ℕ) → Preserves IsSound (require_manager actor organization)
require_manager-IsSound actor organization = search preserves_rules depth 20

-- The services that only lock, and those that use that the locked intent is valid.
pub lock-IsSound :
    {B : Type 0} (organization id : ℕ) (k : Order × PaymentIntent → PaymentService B)
    → ((locked : Order × PaymentIntent) → IsValidIntent locked.1 → Preserves IsSound (k locked))
    → Preserves IsSound (lock_intent organization id >>= k)
lock-IsSound organization id k hk =
    Preserves-learn IsSound _ k (lock_intent-IsSound organization id) hk

pub ruleset saves = (
  lock-IsSound, preserves_rules, save_intent-IsSound, save_attempt-IsSound, record_change-IsSound,
  history-IsSound, fresh_id-IsSound, existing_intent-IsSound, existing_attempt-IsSound,
  require_manager-IsSound,
)
