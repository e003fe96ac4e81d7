-- ===== src/Fulfillment/Services/Commands/Moves.antt =====
-- What a transition demands of a batch and what it does to its row.
use vidalys_flow.Common.{
  ℕ, ◌+◌, refl, ◌≡◌, sym, ap, ◌∙◌, true, Option, some, List, find, replace, ◌==◌, ==_iff,
}
use mathlib.Core.Path.{subst}
use mathlib.Core.Option.{some-injective}
use vidalys_flow.Text.{Text}
use vidalys_flow.Organizations.{User}
use vidalys_flow.Transaction.{
  ok, ◌>>◌, pure, >>=-eq-ok, or_raise-bind, unless-bind, outcome_state, outcome_value,
}
use vidalys_flow.Transaction.Keeps.{Keeps, keeps_rules}
use vidalys_flow.Database.{Database}
use vidalys_flow.Orders.Tables.{Order, is_confirmed}
use vidalys_flow.Fulfillment.Tables.{
  Status, draft, preparing, ready, in_transit, completed, cancelled, Timestamps, Fulfillment,
  FulfillmentStatusHistory, CommandResult,
}
use vidalys_flow.Fulfillment.Errors.{
  FulfillmentError, FulfillmentService, organization_mismatch, invalid_fulfillment,
  version_conflict, invalid_transition,
}
use vidalys_flow.Fulfillment.Transitions.{may_move}
use vidalys_flow.Fulfillment.Services.{
  FulfillmentEvent, moved_to, is_order, is_fulfillment, lock_order, lock_order_then_fulfillment,
  add_history, record_change, result_of,
}
use vidalys_flow.Fulfillment.Services.Commands.{move_history, moved, transition_fulfillment_work}

-- The batch that is locked belongs to a confirmed order, and locking changes nothing.
pub record Locked (organization id : ℕ) (s : Database) (order : Order) (f : Fulfillment)
    : Type 0 where
  pub found : find (is_fulfillment organization id) s.fulfillment.fulfillments ≡ some f
  pub order_found : find (is_order organization f.order) s.orders.orders ≡ some order
  pub order_confirmed : is_confirmed order.status ≡ true

lock-Locked :
    (organization id : ℕ) (s : Database) {x : Order × Fulfillment} {s' : Database}
    → lock_order_then_fulfillment organization id s ≡ ok x s'
    → Locked organization id s x.0 x.1 × (s' ≡ s)
lock-Locked organization id s {x} {s'} h =
    let batch =
      λ (t : Database). find (is_fulfillment organization id) t.fulfillment.fulfillments in
    let (reference, found₁, h₁) = or_raise-bind (batch s) organization_mismatch _ s h in
    let (order, s₁, locked_order, h₂) =
      >>=-eq-ok (lock_order organization reference.order) _ s h₁ in
    let (order', found₂, h₃) =
      or_raise-bind (find (is_order organization reference.order) s.orders.orders)
        organization_mismatch _ s locked_order in
    let (confirmed, h₄) = unless-bind (is_confirmed order'.status) invalid_fulfillment _ s h₃ in
    let (locked, found₃, h₅) = or_raise-bind (batch s₁) organization_mismatch _ s₁ h₂ in
    let (same, h₆) = unless-bind (locked.order == order.id) organization_mismatch _ s₁ h₅ in
    let state : s₁ ≡ s = outcome_state h₄ in
    let order-eq : order' ≡ order = outcome_value h₄ in
    let x-eq : (order, locked) ≡ x = outcome_value h₆ in
    let found : batch s ≡ some locked = ap batch (sym state) ∙ found₃ in
    let reference-eq : locked ≡ reference = some-injective locked reference (sym found ∙ found₁) in
    (
      subst (λ (y : Order × Fulfillment). Locked organization id s y.0 y.1) x-eq
          (record {
            found = found;
            order_found =
                ap (λ (f : Fulfillment). find (is_order organization f.order) s.orders.orders)
                  reference-eq
                ∙ found₂
                ∙ ap some order-eq;
            order_confirmed = ap (λ (o : Order). is_confirmed o.status) (sym order-eq) ∙ confirmed;
          }),
      outcome_state h₆ ∙ state,
    )

abbrev pub rows_of : Database → List Fulfillment
rows_of s = s.fulfillment.fulfillments

pub add_history-Keeps :
    (h : FulfillmentStatusHistory) → Keeps {E = FulfillmentError} rows_of (add_history h)
add_history-Keeps h = search keeps_rules depth 20

pub record_change-Keeps :
    (f : Fulfillment) (actor : Option ℕ) (event : FulfillmentEvent) (key : Text)
    → Keeps {E = FulfillmentError} rows_of (record_change f actor event key)
unfolding record_change
record_change-Keeps f actor event key = search keeps_rules depth 20

-- The database with the row saved.
abbrev pub stored : Fulfillment → Database → Database
stored f s = record s {
  fulfillment = record (s.fulfillment) {
    fulfillments = replace (λ g. g.id == f.id) f s.fulfillment.fulfillments;
  };
}

abbrev settled : Fulfillment → FulfillmentService (Fulfillment × CommandResult)
settled f = pure (f, result_of f)

-- The end of a transition, once the row is saved.
recorded :
    (h : FulfillmentStatusHistory) (f : Fulfillment) (actor : Option ℕ) (event : FulfillmentEvent)
    (key : Text) (t : Database) {o : Fulfillment} {v : CommandResult} {s' : Database}
    → (add_history h >> (record_change f actor event key >> settled f)) t ≡ ok (o, v) s'
    → (o ≡ f) × (v ≡ result_of f) × (rows_of s' ≡ rows_of t)
recorded h f actor event key t e =
    let (u, t₁, written, e₁) =
      >>=-eq-ok (add_history h) (λ _. record_change f actor event key >> settled f) t e in
    let (w, t₂, changed, e₂) = >>=-eq-ok (record_change f actor event key) (λ _. settled f) t₁ e₁ in
    let same = outcome_value e₂ in
    (
      sym (ap (λ (x : Fulfillment × CommandResult). x.0) same),
      sym (ap (λ (x : Fulfillment × CommandResult). x.1) same),
      ap rows_of (outcome_state e₂)
          ∙ (record_change-Keeps f actor event key).at t₁ w t₂ changed
          ∙ (add_history-Keeps h).at t u t₁ written,
    )

-- The column that dates a transition, by its target.
abbrev pub IsDated : Status → ℕ → Timestamps → Timestamps → Type 0
IsDated draft now t t' = t' ≡ t
IsDated preparing now t t' = t' ≡ record t { preparing_at = some now }
IsDated ready now t t' = t' ≡ record t { ready_at = some now }
IsDated in_transit now t t' = t' ≡ record t { dispatched_at = some now }
IsDated completed now t t' = t' ≡ record t { completed_at = some now }
IsDated cancelled now t t' = t' ≡ record t { cancelled_at = some now }

-- A cancellation writes its reason, and another transition keeps the text.
abbrev pub IsReasoned : Status → Text → Text → Text → Type 0
IsReasoned cancelled reason old new = new ≡ reason
IsReasoned _ reason old new = new ≡ old

-- The row after a transition: the target, the next version, the date and the reason of it, and the
-- other columns as they were.
abbrev pub IsMoved : Status → Text → ℕ → Fulfillment → Fulfillment → Type 0
IsMoved target reason now before after =
    (after ≡ record before {
      status = target;
      version = before.version + 1;
      timestamps = after.timestamps;
      cancel_reason = after.cancel_reason;
    })
    × IsDated target now before.timestamps after.timestamps
    × IsReasoned target reason before.cancel_reason after.cancel_reason

moved-IsMoved :
    (target : Status) (reason : Text) (now : ℕ) (before : Fulfillment)
    → IsMoved target reason now before (moved target reason now before)
moved-IsMoved draft reason now before = (refl, refl, refl)
moved-IsMoved preparing reason now before = (refl, refl, refl)
moved-IsMoved ready reason now before = (refl, refl, refl)
moved-IsMoved in_transit reason now before = (refl, refl, refl)
moved-IsMoved completed reason now before = (refl, refl, refl)
moved-IsMoved cancelled reason now before = (refl, refl, refl)

-- A transition that returns found a batch of the expected version whose order is confirmed and
-- whose status and method allow the target. The row of that batch gets the target as its status, the
-- next version, the time of the transaction in the column of the target and, with a cancellation,
-- the reason; its other columns and the rows of other identifiers are not changed.
pub transition_fulfillment_work_effect :
    (organization id : ℕ) (actor : User) (target : Status) (expected_version : ℕ)
    (key reason : Text) (s : Database) {o : Fulfillment} {v : CommandResult} {s' : Database}
    → transition_fulfillment_work organization id actor target expected_version key reason s
      ≡ ok (o, v) s'
    → (before : Fulfillment) × (order : Order) × Locked organization id s order before
      × (before.version ≡ expected_version)
      × (may_move before.method before.status target ≡ true)
      × IsMoved target reason s.journal.now before o
      × (v ≡ result_of o)
      × (rows_of s' ≡ replace (λ g. g.id == o.id) o (rows_of s))
unfolding transition_fulfillment_work
transition_fulfillment_work_effect organization id actor target expected_version key reason s {o}
      {v} {s'} h =
    let ((order, before), s₁, locked, h₁) =
      >>=-eq-ok (lock_order_then_fulfillment organization id) _ s h in
    let (lock, state) = lock-Locked organization id s locked in
    let (version, h₂) = unless-bind (before.version == expected_version) version_conflict _ s₁ h₁ in
    let (may, h₃) =
      unless-bind (may_move before.method before.status target) invalid_transition _ s₁ h₂ in
    let (same, result, rows) =
      recorded (move_history organization before target actor key reason)
        (moved target reason s₁.journal.now before) (some actor.id) (moved_to target) key
        (stored (moved target reason s₁.journal.now before) s₁) h₃ in
    let o-eq : o ≡ moved target reason s.journal.now before =
      same ∙ ap (λ (t : Database). moved target reason t.journal.now before) state in
    (
      before,
      order,
      lock,
      (==_iff before.version expected_version).0 version,
      may,
      subst (IsMoved target reason s.journal.now before) (sym o-eq)
          (moved-IsMoved target reason s.journal.now before),
      result ∙ ap result_of (sym same),
      rows
          ∙ ap (λ (f : Fulfillment). replace (λ g. g.id == f.id) f (rows_of s₁)) (sym same)
          ∙ ap (λ (t : Database). replace (λ g. g.id == o.id) o (rows_of t)) state,
    )
