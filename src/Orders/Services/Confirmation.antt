-- ===== src/Orders/Services/Confirmation.antt =====
-- What `confirm_order` demands and what it leaves.
use vidalys_flow.Common.{
  ℕ, ◌+◌, ◌&&◌, ◌≡◌, refl, sym, ap, ◌∙◌, List, [], ◌∷◌, find, replace, some, true, false, ◌==◌,
  ==_iff, arith, Bool-cases, inl, inr,
}
use mathlib.Core.Path.{subst}
use vidalys_flow.Text.{Text}
use vidalys_flow.Organizations.{User}
use vidalys_flow.Catalog.{Customer}
use vidalys_flow.Transaction.{
  ok, >>=-eq-ok, or_raise-bind, unless-bind, raise_if-bind, raise_if-eq-ok, outcome_value,
}
use vidalys_flow.Database.{Database}
use vidalys_flow.Orders.Tables.{confirmed, Order, OrderItem, CommandResult}
use vidalys_flow.Orders.Calculations.{OrderAmounts}
use vidalys_flow.Orders.Errors.{
  organization_mismatch, version_conflict, invalid_transition, confirmation_blocked,
}
use vidalys_flow.Orders.Transitions.{allowed}
use vidalys_flow.Orders.Snapshots.{customer_snapshots}
use vidalys_flow.Orders.Services.{
  is_order, is_some, items_of, result_of, require_customer, recalculate, set_orders, was_confirmed,
}
use vidalys_flow.Orders.Services.Catalog.{SourcedItem, source_items}
use vidalys_flow.Orders.Services.Lifecycle.{is_nil, confirm_items, confirm_order_work}
use vidalys_flow.Orders.Services.Frame.{
  OrderRows, order_rows, source_items-Keeps, confirm_items-Keeps_orders,
}
use vidalys_flow.Orders.Services.Totals.{IsTotalled, retotalled, recalculate_effect}
use vidalys_flow.Orders.Services.Effects.{Changed, Changed-eq, find-is_order, recorded}

-- The demands on an order that was confirmed, and what its row holds.
pub record Confirmation (organization order_id expected_version : ℕ) (s s' : Database)
    (before after : Order) : Type 0 where
  pub was_draft : allowed before.status confirmed ≡ true
  pub customer : Customer
  pub customer_found :
      find (λ c. c.organization == organization && c.id == before.customer) s.catalog.customers
      ≡ some customer
  pub customer_not_merged : is_some customer.merged_into ≡ false
  pub has_items : is_nil (items_of before.id s.orders.items) ≡ false
  pub now_confirmed : after.status ≡ confirmed
  pub with_snapshots : after.snapshots ≡ customer_snapshots customer
  pub totalled : IsTotalled s'.orders.items after
  pub changed : Changed organization order_id expected_version s s' before after

require_customer-eq-ok :
    (organization : ℕ) (customer : Customer) (s : Database) {u : Unit {0}} {s' : Database}
    → require_customer organization customer s ≡ ok u s'
    → (is_some customer.merged_into ≡ false) × (s' ≡ s)
require_customer-eq-ok organization customer s h =
    let (mine, h₁) =
      unless-bind (customer.organization == organization) organization_mismatch _ s h in
    raise_if-eq-ok (is_some customer.merged_into) confirmation_blocked s h₁

source_items-is_nil :
    (organization : ℕ) (is : List OrderItem) (s : Database) {xs : List SourcedItem} {s' : Database}
    → source_items organization is s ≡ ok xs s'
    → is_nil xs ≡ false
    → is_nil is ≡ false
unfolding source_items
source_items-is_nil organization [] s h n = ap is_nil (outcome_value h) ∙ n
source_items-is_nil organization (i ∷ is) s h n = refl

-- A save over a save of the same row.
replace-replace :
    (a b : Order) (rows : List Order)
    → b.id ≡ a.id
    → replace (λ r. r.id == b.id) b (replace (λ r. r.id == a.id) a rows)
      ≡ replace (λ r. r.id == b.id) b rows
replace-replace a b [] e = refl
replace-replace a b (x ∷ xs) e = elim (Bool-cases (x.id == a.id)) [
  | inl same ↦ ground (arith, replace-replace a b xs e)
  | inr other ↦ ground (arith, replace-replace a b xs e)
]

abbrev confirmed_order : Order → Customer → ℕ → Order
confirmed_order totalled customer now = record totalled {
  snapshots = customer_snapshots customer;
  status = confirmed;
  confirmed_at = some now;
  version = totalled.version + 1;
}

-- The row that is saved at the end, and the rows of the tables then.
confirmation_saved :
    (organization order_id expected_version : ℕ) (s s₃ s₄ s' : Database) (order totalled o : Order)
    (customer : Customer) (t : OrderAmounts) (total now : ℕ)
    → find (is_order organization order_id) s.orders.orders ≡ some order
    → (order.version == expected_version) ≡ true
    → s₃.orders.orders ≡ s.orders.orders
    → totalled ≡ retotalled order t total
    → s₄ ≡ set_orders (replace (λ r. r.id == totalled.id) totalled s₃.orders.orders) s₃
    → o ≡ confirmed_order totalled customer now
    → order_rows s'
      ≡ order_rows (
          set_orders
            (replace
              (λ r. r.id == totalled.id)
              (confirmed_order totalled customer now)
              s₄.orders.orders)
            s₄)
    → Changed organization order_id expected_version s s' order o
      × (s'.orders.items ≡ s₃.orders.items)
confirmation_saved organization order_id expected_version s s₃ s₄ s' order totalled o customer t
      total now found version base row e₄ same rows =
    let order' = confirmed_order totalled customer now in
    let (owner, id) = find-is_order organization order_id s.orders.orders order found in
    let write = λ (x : List Order). replace (λ r. r.id == totalled.id) order' x in
    (
      Changed-eq same (record {
        located = found;
        current = (==_iff order.version expected_version).0 version;
        next = ap (λ (x : Order). x.version + 1) row;
        same_id = ap (λ (x : Order). x.id) row ∙ id;
        same_organization = ap (λ (x : Order). x.organization) row ∙ owner;
        saved =
            ap (λ (r : OrderRows). r.orders) rows
            ∙ ap (λ (x : Database). write x.orders.orders) e₄
            ∙ replace-replace totalled order' s₃.orders.orders refl
            ∙ ap write base;
      }),
      ap (λ (r : OrderRows). r.items) rows ∙ ap (λ (x : Database). x.orders.items) e₄,
    )

confirmed_order-IsTotalled :
    (items items' : List OrderItem) (totalled o : Order) (customer : Customer) (now : ℕ)
    → IsTotalled items totalled
    → o ≡ confirmed_order totalled customer now
    → items' ≡ items
    → IsTotalled items' o
confirmed_order-IsTotalled items items' totalled o customer now sums same e =
    subst (λ is. IsTotalled is o) (sym e) (subst (IsTotalled items) (sym same) sums)

-- A confirmation that returns found an order of the expected version that may be confirmed, with at
-- least one item and a customer of the organization that is not merged; it leaves the order
-- confirmed, with the customer's snapshots and the totals of its items.
pub confirm_order_work_effect :
    (organization order_id : ℕ) (actor : User) (expected_version : ℕ) (key : Text) (s : Database)
    {o : Order} {v : CommandResult} {s' : Database}
    → confirm_order_work organization order_id actor expected_version key s ≡ ok (o, v) s'
    → (v ≡ result_of o)
      × (before : Order) × Confirmation organization order_id expected_version s s' before o
unfolding confirm_order_work
confirm_order_work_effect organization order_id actor expected_version key s {o} {v} {s'} h =
    let (order, found, h₁) =
      or_raise-bind (find (is_order organization order_id) s.orders.orders) organization_mismatch _
        s h in
    let (version, h₂) = unless-bind (order.version == expected_version) version_conflict _ s h₁ in
    let (may, h₃) = unless-bind (allowed order.status confirmed) invalid_transition _ s h₂ in
    let (customer, customer_found, h₄) =
      or_raise-bind
        (find (λ c. c.organization == organization && c.id == order.customer) s.catalog.customers)
        organization_mismatch _ s h₃ in
    let (items, s₁, sourced, h₅) =
      >>=-eq-ok (source_items organization (items_of order.id s.orders.items)) _ s h₄ in
    let e₁ : s₁ ≡ s =
      (source_items-Keeps (λ x. x) organization (items_of order.id s.orders.items)).at s items s₁
        sourced in
    let (u₂, s₂, required, h₆) = >>=-eq-ok (require_customer organization customer) _ s₁ h₅ in
    let (free, e₂) = require_customer-eq-ok organization customer s₁ required in
    let (some_items, h₇) = raise_if-bind (is_nil items) confirmation_blocked _ s₂ h₆ in
    let (u₃, s₃, looped, h₈) = >>=-eq-ok (confirm_items organization items) _ s₂ h₇ in
    let e₃ = (confirm_items-Keeps_orders organization items).at s₂ u₃ s₃ looped in
    let (totalled, s₄, recalculated, h₉) = >>=-eq-ok (recalculate order) _ s₃ h₈ in
    let (t, total, row, sums, e₄) = recalculate_effect order s₃ recalculated in
    let (same, result, rows) =
      recorded _ (confirmed_order totalled customer s₄.journal.now) actor was_confirmed key _ h₉ in
    let (changed, items-eq) =
      confirmation_saved organization order_id expected_version s s₃ s₄ s' order totalled o customer
        t total s₄.journal.now found version (e₃ ∙ ap (λ (x : Database). x.orders.orders) (e₂ ∙ e₁))
        row e₄ same rows in
    (
      result ∙ ap result_of (sym same),
      order,
      record {
        was_draft = may;
        customer = customer;
        customer_found = customer_found;
        customer_not_merged = free;
        has_items =
            source_items-is_nil organization (items_of order.id s.orders.items) s sourced
              some_items;
        now_confirmed = ap (λ (x : Order). x.status) same;
        with_snapshots = ap (λ (x : Order). x.snapshots) same;
        totalled =
            confirmed_order-IsTotalled s₃.orders.items s'.orders.items totalled o customer
              s₄.journal.now sums same items-eq;
        changed = changed;
      },
    )
