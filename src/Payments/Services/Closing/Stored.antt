-- ===== src/Payments/Services/Closing/Stored.antt =====
-- The row of the payment of a cancelled order, as it is stored afterwards.
use vidalys_flow.Common.{
  ℕ, ◌≡◌, refl, sym, ap, ◌∙◌, Bool, true, false, ◌&&◌, Option, none, some, List, find, find_passes,
  find_replaced, replace, ◌==◌, arith,
}
use mathlib.Core.Path.{subst}
use vidalys_flow.Text.{Text}
use vidalys_flow.Transaction.{
  ok, pure, or_raise, ◌>>◌, >>=-eq-ok, or_raise-bind, unless-bind, outcome_state, outcome_value,
}
use vidalys_flow.Transaction.Keeps.{Keeps, keeps_rules}
use vidalys_flow.Database.{Database}
use vidalys_flow.Orders.Tables.{Order, is_cancelled}
use vidalys_flow.Payments.Tables.{
  IntentStatus, Source, Reason, PaymentIntent, PaymentAttempt, CommandResult,
}
use vidalys_flow.Payments.Errors.{organization_mismatch, invalid_payment}
use vidalys_flow.Payments.Services.{
  PaymentEvent, was_cancelled, attention_required, lock_order, save_intent, save_attempt_or,
  history, record_change, audit, is_order,
}
use vidalys_flow.Payments.Services.Cancellation.{is_unsent}
use vidalys_flow.Payments.Services.Leases.{cancelled_at_now}
use vidalys_flow.Payments.Services.Closing.{
  Closure, closes, needs_attention, stays, close_unsent, close_attempt, close_payment, in_conflict,
  is_intent_of_order, is_open_for, consume_order_cancelled_work,
}
use vidalys_flow.Payments.Services.Closing.Settles.{
  lock_order-Keeps, close_payment-Keeps, close_attempt-IsShut, close_attempt-IsDue, closes-Returns,
  IsClosedBy, IsShut, IsSettled, IsSettled-of, rows_of,
}
use vidalys_flow.Payments.Soundness.{IsExclusive, IsSound}

abbrev intents_of : Database → List PaymentIntent
intents_of s = s.payments.intents

history-Keeps :
    (i : PaymentIntent) (status : Option IntentStatus) (actor : Option ℕ) (key : Text)
    (source : Source) (why : Reason)
    → Keeps intents_of (history i status actor key source why)
unfolding history
history-Keeps i status actor key source why = search keeps_rules depth 10

record_change-Keeps :
    (i : PaymentIntent) (actor : Option ℕ) (e : PaymentEvent) (key : Text)
    → Keeps intents_of (record_change i actor e key)
unfolding record_change audit
record_change-Keeps i actor e key = search keeps_rules depth 10

close_attempt-Keeps :
    (a : Option PaymentAttempt) (status : IntentStatus) → Keeps intents_of (close_attempt a status)
unfolding save_attempt_or
close_attempt-Keeps none status = search keeps_rules
close_attempt-Keeps (some a) status = go (is_unsent a)
  where
    go : (unsent : Bool) → Keeps intents_of (close_unsent unsent a status)
    go true = search keeps_rules depth 20
    go false = search keeps_rules

-- What follows a saved row leaves it where it is.
saved_then :
    (j new : PaymentIntent) (source : Source) (why : Reason) (e : PaymentEvent) (key : Text)
    (s : Database) {i : PaymentIntent} {s' : Database}
    → (save_intent new
          >> (history new (some j.status) none key source why
              >> (record_change new none e key >> pure new)))
        s
      ≡ ok i s'
    → (i ≡ new) × (intents_of s' ≡ replace (λ x. x.id == new.id) new (intents_of s))
unfolding save_intent
saved_then j new source why e key s h =
    let (u, t, written, h₁) =
      >>=-eq-ok (history new (some j.status) none key source why)
        (λ _. record_change new none e key >> pure new) _ h in
    let (w, t₁, changed, h₂) = >>=-eq-ok (record_change new none e key) (λ _. pure new) t h₁ in
    (
      sym (outcome_value h₂),
      ap intents_of (outcome_state h₂)
          ∙ (record_change-Keeps new none e key).at t w t₁ changed
          ∙ (history-Keeps new (some j.status) none key source why).at _ u t written,
    )

-- A test that the saved row passes as the row before it did finds the saved row.
close_payment_stored :
    (c : Closure) (organization order : ℕ) (j : PaymentIntent) (key : Text) (s : Database)
    {i : PaymentIntent} {s' : Database}
    → close_payment c j key s ≡ ok i s'
    → find (is_intent_of_order organization order) (intents_of s) ≡ some j
    → find (is_intent_of_order organization order) (intents_of s') ≡ some i
close_payment_stored stays organization order j key s h found =
    ap (λ t. find (is_intent_of_order organization order) (intents_of t)) (outcome_state h)
    ∙ found
    ∙ ap some (outcome_value h)
close_payment_stored closes organization order j key s h found =
    let new = cancelled_at_now s.journal.now j in
    let (same, rows) = saved_then j new _ _ was_cancelled key s h in
    ap (find (is_intent_of_order organization order)) rows
    ∙ find_replaced (is_intent_of_order organization order) (λ x. x.id == new.id) new (intents_of s)
        j found (find_passes (is_intent_of_order organization order) (intents_of s) j found)
        (ground arith)
    ∙ ap some (sym same)
close_payment_stored needs_attention organization order j key s h found =
    let new = in_conflict j in
    let (same, rows) = saved_then j new _ _ attention_required key s h in
    ap (find (is_intent_of_order organization order)) rows
    ∙ find_replaced (is_intent_of_order organization order) (λ x. x.id == new.id) new (intents_of s)
        j found (find_passes (is_intent_of_order organization order) (intents_of s) j found)
        (ground arith)
    ∙ ap some (sym same)

order_id_eq : (organization id : ℕ) (o : ℕ) (p : ℕ) → (p == organization && o == id) ≡ true → o ≡ id
order_id_eq organization id o p h = ground arith

raised_or_found :
    (found : Option Order) (s : Database) {o : Order} {s' : Database}
    → or_raise found organization_mismatch s ≡ ok o s'
    → found ≡ some o
raised_or_found none s h = cc
raised_or_found (some x) s h = ap some (outcome_value h)

-- On sound tables, the event of a cancelled order leaves the payment of the order settled: the row
-- that is stored as the intent of the order is the one that is returned, it is cancelled, expired or
-- requires attention, and unless it requires attention no attempt of it is open any more.
pub consume_order_cancelled_work_settles :
    (organization order_id : ℕ) (key : Text) (s : Database) (i : PaymentIntent) (v : CommandResult)
    (s' : Database)
    → IsSound s
    → consume_order_cancelled_work organization order_id key s ≡ ok (i, v) s'
    → (find (λ x. x.organization == organization && x.order == order_id) s'.payments.intents
        ≡ some i)
      × IsSettled i s'.payments.attempts
unfolding consume_order_cancelled_work
consume_order_cancelled_work_settles organization order_id key s i v s' sound h =
    let (order, s₁, locked, h₁) = >>=-eq-ok (lock_order organization order_id) _ s h in
    let same : s₁ ≡ s = (lock_order-Keeps (λ t. t) organization order_id).at s order s₁ locked in
    let id : order.id ≡ order_id = order_id_eq organization order_id order.id order.organization (
      find_passes (is_order organization order_id) s.orders.orders order
        (raised_or_found (find (is_order organization order_id) s.orders.orders) s locked)) in
    let (_, h₂) = unless-bind (is_cancelled order.status) invalid_payment _ s₁ h₁ in
    let (j, found, h₃) =
      or_raise-bind (find (is_intent_of_order organization order.id) s₁.payments.intents)
        invalid_payment _ s₁ h₂ in
    let a = find (is_open_for j.id) s₁.payments.attempts in
    let (c, s₂, decided, h₄) = >>=-eq-ok (close_attempt a j.status) _ s₁ h₃ in
    let (i₀, s₃, closed, h₅) = >>=-eq-ok (close_payment c j key) _ s₂ h₄ in
    let exclusive : IsExclusive s₁.payments.attempts =
      subst (λ (t : Database). IsExclusive t.payments.attempts) (sym same) sound.2 in
    let rows : rows_of s' ≡ rows_of s₂ =
      ap rows_of (outcome_state h₅) ∙ (close_payment-Keeps c j key).at s₂ i₀ s₃ closed in
    let is_i : i ≡ i₀ = sym (ap (λ (x : PaymentIntent × CommandResult). x.0) (outcome_value h₅)) in
    let found₂ : find (is_intent_of_order organization order.id) (intents_of s₂) ≡ some j =
      ap (find (is_intent_of_order organization order.id))
        ((close_attempt-Keeps a j.status).at s₁ c s₂ decided)
      ∙ found in
    (
      subst (λ n. find (is_intent_of_order organization n) s'.payments.intents ≡ some i) id
          (ap (λ t. find (is_intent_of_order organization order.id) (intents_of t))
              (outcome_state h₅)
            ∙ close_payment_stored c organization order.id j key s₂ closed found₂
            ∙ ap some (sym is_i)),
      IsSettled-of c j i (rows_of s') ((close_attempt-IsDue a j.status).at s₁ c s₂ decided)
          (subst (IsClosedBy c j) (sym is_i) ((closes-Returns c j key).at s₂ i₀ s₃ closed))
          (subst (IsShut c j.status j.id) (sym rows)
            (close_attempt-IsShut a j.status j.id s₁ c s₂ refl exclusive decided)),
    )
