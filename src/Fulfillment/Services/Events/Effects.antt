-- ===== src/Fulfillment/Services/Events/Effects.antt =====
-- What the event of a cancelled order makes of a batch.
use vidalys_flow.Common.{
  ℕ, ◌+◌, ◌≢◌, ◌≡◌, refl, sym, ap, ◌∙◌, ◌⊎◌, inl, inr, Bool, true, false, none, some, find, replace,
  ◌==◌,
}
use mathlib.Core.Path.{subst}
use mathlib.Core.Option.{some-injective}
use vidalys_flow.Text.{Text, codes}
use vidalys_flow.Transaction.{
  ok, ◌>>◌, pure, >>=-eq-ok, or_raise-bind, unless-bind, outcome_state, outcome_value,
}
use vidalys_flow.Transaction.Keeps.{Keeps, keeps_rules}
use vidalys_flow.Database.{Database}
use vidalys_flow.Orders.Tables.{Order, is_cancelled}
use vidalys_flow.Orders.Tables
use vidalys_flow.Fulfillment.Tables.{
  Status, draft, preparing, ready, in_transit, completed, cancelled, Fulfillment, CommandResult,
}
use vidalys_flow.Fulfillment.Errors.{FulfillmentError, organization_mismatch, invalid_fulfillment}
use vidalys_flow.Fulfillment.Services.{
  moved_to, is_order, is_fulfillment, add_history, record_change,
}
use vidalys_flow.Fulfillment.Services.Commands.Moves.{
  rows_of, add_history-Keeps, record_change-Keeps, stored,
}
use vidalys_flow.Fulfillment.Services.Events.{
  is_final, lock_any_order_then_fulfillment, system_cancelled, system_history, cancel_unless_final,
  cancel_from_order_event_work,
}

lock-Keeps :
    (organization id : ℕ)
    → Keeps {E = FulfillmentError} (λ s. s) (lock_any_order_then_fulfillment organization id)
lock-Keeps organization id = search keeps_rules depth 30

-- The batch that is locked is the one that is found.
lock_found :
    (organization id : ℕ) (s : Database) (x : Order × Fulfillment) (s' : Database)
    → lock_any_order_then_fulfillment organization id s ≡ ok x s'
    → (find (is_fulfillment organization id) (rows_of s) ≡ some x.1)
      × (find (is_order organization (x.1).order) s.orders.orders ≡ some x.0)
lock_found organization id s x s' h =
    let (reference, found₁, h₁) =
      or_raise-bind (find (is_fulfillment organization id) (rows_of s)) organization_mismatch _ s
        h in
    let (order, order_found, h₂) =
      or_raise-bind (find (is_order organization reference.order) s.orders.orders)
        organization_mismatch _ s h₁ in
    let (locked, found, h₃) =
      or_raise-bind (find (is_fulfillment organization id) (rows_of s)) organization_mismatch _ s
        h₂ in
    let (_, h₄) = unless-bind (locked.order == order.id) organization_mismatch _ s h₃ in
    let same : (order, locked) ≡ x = outcome_value h₄ in
    let reference-eq : reference ≡ locked = some-injective reference locked (sym found₁ ∙ found) in
    (
      found ∙ ap (λ (y : Order × Fulfillment). some y.1) same,
      subst
          (λ (y : Order × Fulfillment).
            find (is_order organization (y.1).order) s.orders.orders ≡ some y.0)
          same
          (ap (λ (f : Fulfillment). find (is_order organization f.order) s.orders.orders)
              (sym reference-eq)
            ∙ order_found),
    )

-- A batch that was completed or cancelled stays as it is. Another one is cancelled by the system, if
-- its order is cancelled.
abbrev pub IsFollowed : Order → Fulfillment → Database → Fulfillment → Database → Type 0
IsFollowed order before s f s' =
    (((before.status ≡ completed) ⊎ (before.status ≡ cancelled))
      × (f ≡ before)
      × (rows_of s' ≡ rows_of s))
    ⊎ ((before.status ≢ completed)
        × (before.status ≢ cancelled)
        × (order.status ≡ Tables.Status.cancelled)
        × (f ≡ record before {
          status = cancelled;
          version = before.version + 1;
          timestamps = record (before.timestamps) { cancelled_at = some s.journal.now };
          cancel_reason = codes "Pedido cancelado";
          system_cancelled = true;
        })
        × (rows_of s' ≡ replace (λ g. g.id == before.id) f (rows_of s)))

final_cases :
    (status : Status) → is_final status ≡ true → (status ≡ completed) ⊎ (status ≡ cancelled)
final_cases draft h = cc
final_cases preparing h = cc
final_cases ready h = cc
final_cases in_transit h = cc
final_cases completed h = inl refl
final_cases cancelled h = inr refl

not_final :
    (status other : Status) → is_final status ≡ false → is_final other ≡ true → status ≢ other
not_final status other live final same = absurd (cc (ap is_final same, live, final))

cancelled-eq :
    (status : Tables.Status) → is_cancelled status ≡ true → status ≡ Tables.Status.cancelled
cancelled-eq Tables.Status.draft h = cc
cancelled-eq Tables.Status.confirmed h = cc
cancelled-eq Tables.Status.cancelled h = refl

followed :
    (b : Bool) (organization : ℕ) (order : Order) (before : Fulfillment) (key : Text) (s : Database)
    (f : Fulfillment) (s' : Database)
    → is_final before.status ≡ b
    → cancel_unless_final b organization order before key s ≡ ok f s'
    → IsFollowed order before s f s'
followed true organization order before key s f s' final h =
    inl (final_cases before.status final, sym (outcome_value h), ap rows_of (outcome_state h))
followed false organization order before key s f s' final h =
    let new = system_cancelled s.journal.now before in
    let (gone, h₁) = unless-bind (is_cancelled order.status) invalid_fulfillment _ s h in
    let (u, t₁, written, h₂) =
      >>=-eq-ok (add_history (system_history organization before key))
        (λ _. record_change new none (moved_to cancelled) key >> pure new) (stored new s) h₁ in
    let (w, t₂, changed, h₃) =
      >>=-eq-ok (record_change new none (moved_to cancelled) key) (λ _. pure new) t₁ h₂ in
    let same : f ≡ new = sym (outcome_value h₃) in
    inr (
      not_final before.status completed final refl,
      not_final before.status cancelled final refl,
      cancelled-eq order.status gone,
      same,
      ap rows_of (outcome_state h₃)
          ∙ (record_change-Keeps new none (moved_to cancelled) key).at t₁ w t₂ changed
          ∙ (add_history-Keeps (system_history organization before key)).at (stored new s) u t₁
              written
          ∙ ap (λ g. replace (λ x. x.id == before.id) g (rows_of s)) (sym same),
    )

-- The event of a cancelled order, where the command returns: the batch that it names and its order are
-- found; if the batch was completed or cancelled it is returned and all batches stay as they are;
-- otherwise the order is cancelled, and the row of the batch becomes a cancelled one of the next
-- version, dated with the time of the transaction, with the reason "Pedido cancelado" and the mark of
-- the system, its other columns as they were, and no row of another identifier changes.
pub cancel_from_order_event_work_effect :
    (organization id : ℕ) (key : Text) (s : Database) (f : Fulfillment) (v : CommandResult)
    (s' : Database)
    → cancel_from_order_event_work organization id key s ≡ ok (f, v) s'
    → (order : Order) × (before : Fulfillment) × (find (is_fulfillment organization id) (rows_of s)
        ≡ some before)
      × (find (is_order organization before.order) s.orders.orders ≡ some order)
      × IsFollowed order before s f s'
unfolding cancel_from_order_event_work
cancel_from_order_event_work_effect organization id key s f v s' h =
    let (x, s₁, locked, h₁) = >>=-eq-ok (lock_any_order_then_fulfillment organization id) _ s h in
    let same : s₁ ≡ s = (lock-Keeps organization id).at s x s₁ locked in
    let (g, s₂, changed, h₂) =
      >>=-eq-ok (cancel_unless_final (is_final (x.1).status) organization x.0 x.1 key) _ s₁ h₁ in
    let is_g : g ≡ f = ap (λ (y : Fulfillment × CommandResult). y.0) (outcome_value h₂) in
    let follows = followed (is_final (x.1).status) organization x.0 x.1 key s₁ g s₂ refl changed in
    (
      x.0,
      x.1,
      (lock_found organization id s x s₁ locked).0,
      (lock_found organization id s x s₁ locked).1,
      subst (λ t. IsFollowed x.0 x.1 t f s') same
          (subst (λ y. IsFollowed x.0 x.1 s₁ y s') is_g
            (subst (λ t. IsFollowed x.0 x.1 s₁ g t) (sym (outcome_state h₂)) follows)),
    )
