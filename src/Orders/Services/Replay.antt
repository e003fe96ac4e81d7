-- ===== src/Orders/Services/Replay.antt =====
-- A command of the orders that is sent again returns what it returned before and changes nothing.
use vidalys_flow.Common.{
  none, sym, ℕ, ◌≡◌, refl, ap, ◌∙◌, List, some, find, arith, ◌∷◌, ◌==◌, inl, inr, Bool-cases,
}
use vidalys_flow.Text.{Text, codes, strip, is_empty}
use vidalys_flow.Catalog.{Customer}
use vidalys_flow.Organizations.{User}
use vidalys_flow.Transaction.{
  ok, >>=-eq-ok, >>=-ok, unless-bind, unless-ok, raise_if-bind, raise_if-ok,
}
use vidalys_flow.Transaction.Keeps.{Keeps, keeps_rules}
use vidalys_flow.Idempotency.{Receipt}
use vidalys_flow.Idempotency.Command.{once, once_again, once-Keeps}
use vidalys_flow.Database.{Database}
use vidalys_flow.Orders.Tables.{Order, CommandResult}
use vidalys_flow.Orders.Errors.{
  OrderError, OrderService, idempotency_conflict, order_permission_denied, reason_required,
}
use vidalys_flow.Orders.Services.{
  Request, create_order_request, confirm_order_request, cancel_order_request, manage, confirm,
  is_some, require_customer, order_receipts, existing_order, is_order, result_of, permits, cancel,
}
use vidalys_flow.Orders.Services.Lifecycle.{
  create_order, create_order_work, confirm_order, confirm_order_work, cancel_order,
  cancel_order_work,
}
use vidalys_flow.Orders.Services.Frame.{
  untouched, Untouched, create_order_work-Keeps, confirm_order_work-Keeps, cancel_order_work-Keeps,
}
use vidalys_flow.Orders.Services.Effects.{
  create_order_work_effect, cancel_order_work_effect, find-Changed,
}
use vidalys_flow.Orders.Services.Confirmation.{confirm_order_work_effect}

existing_order-Keeps :
    {X : Type 0} (f : Database → X) (r : Receipt CommandResult)
    → Keeps {E = OrderError} f (existing_order r)
existing_order-Keeps f r = search keeps_rules

-- The order of a completed receipt, where it is in the table.
existing_found :
    (organization : ℕ) (o : Order) (r : Receipt CommandResult) (s : Database)
    → r.organization ≡ organization
    → r.result ≡ some (result_of o)
    → find (is_order organization o.id) s.orders.orders ≡ some o
    → existing_order r s ≡ ok o s
existing_found organization o r s owner result found = rw (result, owner, found) refl

-- A command whose work returns an order that its tables then hold.
order_command_again :
    (organization : ℕ) (operation key : Text) (digest : ℕ)
    (work : OrderService (Order × CommandResult))
    → Keeps untouched work
    → ((s : Database) (o : Order) (v : CommandResult) (s' : Database)
        → work s ≡ ok (o, v) s'
        → (v ≡ result_of o) × (find (is_order organization o.id) s'.orders.orders ≡ some o))
    → (s : Database) (o : Order) (s' : Database)
    → once order_receipts idempotency_conflict organization operation key digest work existing_order
        s
      ≡ ok o s'
    → (once order_receipts idempotency_conflict organization operation key digest work
          existing_order s'
        ≡ ok o s')
      × (s'.directory ≡ s.directory)
order_command_again organization operation key digest work keeps effect s o s' h = (
  once_again order_receipts idempotency_conflict organization operation key digest work
      existing_order
      (λ s₁ o₁ v₁ s₂ e.
        let (result, found) = effect s₁ o₁ v₁ s₂ e in
        (
          ap (λ (u : Untouched). u.receipts) (keeps.at s₁ (o₁, v₁) s₂ e),
          λ r t owner completed.
              existing_found organization o₁ r (order_receipts.store t s₂) owner
                (completed ∙ ap some result) found,
        ))
      (λ r s₁ a s₂ e. (existing_order-Keeps (λ x. x) r).at s₁ a s₂ e) s o s' h,
  (once-Keeps order_receipts idempotency_conflict (λ (x : Database). x.directory) (λ t x. refl)
        organization operation key digest work existing_order
        (record { at = λ s₁ a s₂ e. ap (λ (u : Untouched). u.directory) (keeps.at s₁ a s₂ e) })
        (existing_order-Keeps (λ x. x.directory))).at
      s o s' h,
)

require_customer-reads :
    (organization : ℕ) (customer : Customer) (s : Database) {u : Unit {0}} {t : Database}
    → require_customer organization customer s ≡ ok u t
    → t ≡ s
require_customer-reads organization customer s {u} {t} h =
    (require_customer-Keeps organization customer).at s u t h
  where
    require_customer-Keeps :
        (organization : ℕ) (customer : Customer)
        → Keeps (λ (s : Database). s) (require_customer organization customer)
    require_customer-Keeps organization customer = search keeps_rules depth 10

-- The checks of a customer do not depend on the database.
require_customer_again :
    (organization : ℕ) (customer : Customer) (s t s' : Database) {u : Unit {0}}
    → require_customer organization customer s ≡ ok u t
    → require_customer organization customer s' ≡ ok u s'
require_customer_again organization customer s t s' h =
    elim (Bool-cases (customer.organization == organization)) [
      | inr other ↦ absurd (ground arith)
      | inl mine ↦ elim (Bool-cases (is_some customer.merged_into)) [
        | inl merged ↦ absurd (ground arith)
        | inr free ↦ ground arith
      ]
    ]

find_first :
    (organization : ℕ) (rows : List Order) (o : Order)
    → o.organization ≡ organization
    → find (is_order organization o.id) (o ∷ rows) ≡ some o
find_first organization rows o e = ground arith

find_created :
    (organization : ℕ) (rows : List Order) (o : Order) (s' : Database)
    → o.organization ≡ organization
    → s'.orders.orders ≡ o ∷ rows
    → find (is_order organization o.id) s'.orders.orders ≡ some o
find_created organization rows o s' owner e = rw e (find_first organization rows o owner)

module _ (payload_hash : Request → ℕ) where
  -- `cancel_order` sent again with the same arguments returns the same order and changes nothing.
  pub cancel_order_again :
      (organization order_id : ℕ) (actor : User) (reason : Text) (expected_version : ℕ) (key : Text)
      (s : Database) (o : Order) (s' : Database)
      → cancel_order payload_hash organization order_id actor reason expected_version key s
        ≡ ok o s'
      → cancel_order payload_hash organization order_id actor reason expected_version key s'
        ≡ ok o s'
  unfolding cancel_order
  cancel_order_again organization order_id actor reason expected_version key s o s' h =
      let (may, h₁) =
        unless-bind (permits cancel actor organization s.directory) order_permission_denied _ s h in
      let (given, h₂) = raise_if-bind (is_empty (strip reason)) reason_required _ s h₁ in
      let (again, same) =
        order_command_again organization (codes "cancel_order") key
          (payload_hash (cancel_order_request order_id (strip reason) expected_version))
          (cancel_order_work organization order_id actor (strip reason) expected_version key)
          (cancel_order_work-Keeps organization order_id actor (strip reason) expected_version key)
          (λ s₁ o₁ v₁ s₂ e.
            let (_, _, _, result, c) =
              cancel_order_work_effect organization order_id actor (strip reason) expected_version
                key s₁ e in
            (result, find-Changed c))
          s o s' h₂ in
      unless-ok _ _ _ s' (ap (permits cancel actor organization) same ∙ may)
      ∙ raise_if-ok _ _ _ s' given
      ∙ again

  -- `create_order` sent again with the same arguments returns the same order, takes no second
  -- number and changes nothing.
  pub create_order_again :
      (organization : ℕ) (customer : Customer) (actor : User) (channel key : Text) (s : Database)
      (o : Order) (s' : Database)
      → create_order payload_hash organization customer actor channel key s ≡ ok o s'
      → create_order payload_hash organization customer actor channel key s' ≡ ok o s'
  unfolding create_order
  create_order_again organization customer actor channel key s o s' h =
      let (may, h₁) =
        unless-bind (permits manage actor organization s.directory) order_permission_denied _ s h in
      let (u, t, required, h₂) = >>=-eq-ok (require_customer organization customer) _ s h₁ in
      let e = require_customer-reads organization customer s required in
      let (again, same) =
        order_command_again organization (codes "create_order") key
          (payload_hash (create_order_request customer.id (strip channel)))
          (create_order_work organization customer actor channel key)
          (create_order_work-Keeps organization customer actor channel key)
          (λ s₁ o₁ v₁ s₂ e.
            let (row, result, _, rows, _) =
              create_order_work_effect organization customer actor channel key s₁ e in
            (
              result
                  ∙ ap (λ n. record { order = o₁.id; item = none; version = n })
                      (sym (ap (λ (x : Order). x.version) row)),
              find_created organization s₁.orders.orders o₁ s₂
                  (ap (λ (x : Order). x.organization) row) rows,
            ))
          t o s' h₂ in
      unless-ok _ _ _ s'
        (ap (permits manage actor organization) (same ∙ ap (λ (x : Database). x.directory) e) ∙ may)
      ∙ >>=-ok (require_customer organization customer) _
          (require_customer_again organization customer s t s' required)
      ∙ again

  -- `confirm_order` sent again with the same arguments returns the same order and changes nothing.
  pub confirm_order_again :
      (organization order_id : ℕ) (actor : User) (expected_version : ℕ) (key : Text) (s : Database)
      (o : Order) (s' : Database)
      → confirm_order payload_hash organization order_id actor expected_version key s ≡ ok o s'
      → confirm_order payload_hash organization order_id actor expected_version key s' ≡ ok o s'
  unfolding confirm_order
  confirm_order_again organization order_id actor expected_version key s o s' h =
      let (may, h₁) =
        unless-bind (permits confirm actor organization s.directory) order_permission_denied _ s
          h in
      let (again, same) =
        order_command_again organization (codes "confirm_order") key
          (payload_hash (confirm_order_request order_id expected_version))
          (confirm_order_work organization order_id actor expected_version key)
          (confirm_order_work-Keeps organization order_id actor expected_version key)
          (λ s₁ o₁ v₁ s₂ e.
            let (result, before, c) =
              confirm_order_work_effect organization order_id actor expected_version key s₁ e in
            (result, find-Changed c.changed))
          s o s' h₁ in
      unless-ok _ _ _ s' (ap (permits confirm actor organization) same ∙ may) ∙ again
