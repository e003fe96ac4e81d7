-- ===== src/Orders/Services/Effects.antt =====
-- What the commands of the life of an order do to its row.
use vidalys_flow.Common.{
  ℕ, ◌+◌, ◌≡◌, refl, sym, ap, ◌∙◌, inl, inr, List, [], ◌∷◌, none, some, true, find, replace, arith,
  ◌==◌, ==_iff, Bool-cases,
}
use mathlib.Core.Path.{subst}
use vidalys_flow.Text.{Text, strip}
use vidalys_flow.Organizations.{User}
use vidalys_flow.Catalog.{Customer}
use vidalys_flow.Transaction.{
  ok, ◌>>◌, pure, or_raise-bind, unless-bind, >>=-eq-ok, outcome_state, outcome_value,
}
use vidalys_flow.Database.{Database}
use vidalys_flow.Orders.Tables.{
  draft, is_draft, cancelled, Order, OrderStatusHistory, CommandResult,
}
use vidalys_flow.Orders.Errors.{
  OrderService, organization_mismatch, version_conflict, invalid_transition, order_not_editable,
}
use vidalys_flow.Orders.Transitions.{allowed}
use vidalys_flow.Orders.Numbering.{allocate_order_number, take_number}
use vidalys_flow.Orders.Numbering.Sequences.{IsNumbered, take_number-IsNumbered}
use vidalys_flow.Orders.Services.{
  is_order, OrderEvent, was_cancelled, created, record_change, result_of,
}
use vidalys_flow.Orders.Services.Lifecycle.{
  new_order, create_order_work, change_customer_work, cancel_order_work,
}
use vidalys_flow.Orders.Services.Frame.{OrderRows, order_rows, record_change-Keeps_rows}

pub find-is_order :
    (organization id : ℕ) (rows : List Order) (o : Order)
    → find (is_order organization id) rows ≡ some o
    → (o.organization ≡ organization) × (o.id ≡ id)
find-is_order organization id [] o h = cc
find-is_order organization id (x ∷ xs) o h = ground (arith, find-is_order organization id xs o)

-- A saved row is the one that is found.
pub find_saved :
    (organization id : ℕ) (rows : List Order) (o o' : Order)
    → find (is_order organization id) rows ≡ some o
    → o'.organization ≡ organization
    → o'.id ≡ id
    → find (is_order organization o'.id) (replace (λ r. r.id == o'.id) o' rows) ≡ some o'
find_saved organization id [] o o' h e i = cc
find_saved organization id (x ∷ xs) o o' h e i = elim (Bool-cases (x.id == o'.id)) [
  | inl same ↦ ground arith
  | inr other ↦ ground (arith, find_saved organization id xs o o')
]

-- A row of the order that is locked, at the expected version, and the row that is saved in its
-- place, one version later.
pub record Changed (organization order_id expected_version : ℕ) (s s' : Database)
    (before after : Order) : Type 0 where
  pub located : find (is_order organization order_id) s.orders.orders ≡ some before
  pub current : before.version ≡ expected_version
  pub next : after.version ≡ before.version + 1
  pub same_id : after.id ≡ order_id
  pub same_organization : after.organization ≡ organization
  pub saved : s'.orders.orders ≡ replace (λ o. o.id == after.id) after s.orders.orders

pub Changed-eq :
    {organization order_id expected_version : ℕ} {s s' : Database} {before after other : Order}
    → other ≡ after
    → Changed organization order_id expected_version s s' before after
    → Changed organization order_id expected_version s s' before other
Changed-eq {organization} {order_id} {expected_version} {s} {s'} {before} e c =
    subst (λ x. Changed organization order_id expected_version s s' before x) (sym e) c

abbrev pub settled : Order → OrderService (Order × CommandResult)
settled order = pure (order, result_of order)

-- The end of the commands that record a change of status.
pub recorded :
    (h : OrderStatusHistory) (order : Order) (actor : User) (event : OrderEvent) (key : Text)
    (t : Database) {o : Order} {v : CommandResult} {s' : Database}
    → (record_change h order actor event key >> settled order) t ≡ ok (o, v) s'
    → (o ≡ order) × (v ≡ result_of order) × (order_rows s' ≡ order_rows t)
recorded h order actor event key t e =
    let (u, t₁, changed, done) =
      >>=-eq-ok (record_change h order actor event key) (λ _. settled order) t e in
    let kept = (record_change-Keeps_rows h order actor event key).at t u t₁ changed in
    let same = outcome_value done in
    (
      sym (ap (λ (x : Order × CommandResult). x.0) same),
      sym (ap (λ (x : Order × CommandResult). x.1) same),
      ap order_rows (outcome_state done) ∙ kept,
    )

-- A cancellation that returns was allowed from the status of the locked row, and changes that row
-- alone.
pub cancel_order_work_effect :
    (organization order_id : ℕ) (actor : User) (reason : Text) (expected_version : ℕ) (key : Text)
    (s : Database) {o : Order} {v : CommandResult} {s' : Database}
    → cancel_order_work organization order_id actor reason expected_version key s ≡ ok (o, v) s'
    → (before : Order) × (allowed before.status cancelled ≡ true)
      × (o ≡ record before {
        status = cancelled;
        cancelled_at = some s.journal.now;
        cancel_reason = reason;
        version = before.version + 1;
      })
      × (v ≡ result_of o)
      × Changed organization order_id expected_version s s' before o
unfolding cancel_order_work
cancel_order_work_effect organization order_id actor reason expected_version key s h =
    let (order, found, h₁) =
      or_raise-bind (find (is_order organization order_id) s.orders.orders) organization_mismatch _
        s h in
    let (version, h₂) = unless-bind (order.version == expected_version) version_conflict _ s h₁ in
    let (may, h₃) = unless-bind (allowed order.status cancelled) invalid_transition _ s h₂ in
    let order' = record order {
      status = cancelled;
      cancelled_at = some s.journal.now;
      cancel_reason = reason;
      version = order.version + 1;
    } in
    let (same, result, rows) = recorded _ order' actor was_cancelled key _ h₃ in
    let (owner, id) = find-is_order organization order_id s.orders.orders order found in
    (
      order,
      may,
      same,
      result ∙ ap result_of (sym same),
      Changed-eq same (record {
        located = found;
        current = (==_iff order.version expected_version).0 version;
        next = refl;
        same_id = id;
        same_organization = owner;
        saved = ap (λ (r : OrderRows). r.orders) rows;
      }),
    )

-- The row that a change saved is found under its organization and identifier.
pub find-Changed :
    {organization order_id expected_version : ℕ} {s s' : Database} {before after : Order}
    → Changed organization order_id expected_version s s' before after
    → find (is_order organization after.id) s'.orders.orders ≡ some after
find-Changed {organization} {order_id} {s = s} {before = before} {after = after} c = rw c.saved (
    find_saved organization order_id s.orders.orders before after c.located c.same_organization
      c.same_id)

-- A change of the customer needs a draft, and writes the customer and the version.
pub change_customer_work_effect :
    (organization order_id : ℕ) (customer : Customer) (actor : User) (expected_version : ℕ)
    (s : Database) {o : Order} {v : CommandResult} {s' : Database}
    → change_customer_work organization order_id customer actor expected_version s ≡ ok (o, v) s'
    → (before : Order) × (is_draft before.status ≡ true)
      × (o ≡ record before { customer = customer.id; version = before.version + 1 })
      × (v ≡ result_of o)
      × Changed organization order_id expected_version s s' before o
unfolding change_customer_work
change_customer_work_effect organization order_id customer actor expected_version s h =
    let (order, found, h₁) =
      or_raise-bind (find (is_order organization order_id) s.orders.orders) organization_mismatch _
        s h in
    let (editable, h₂) = unless-bind (is_draft order.status) order_not_editable _ s h₁ in
    let (version, h₃) = unless-bind (order.version == expected_version) version_conflict _ s h₂ in
    let same = sym (ap (λ (x : Order × CommandResult). x.0) (outcome_value h₃)) in
    let result = sym (ap (λ (x : Order × CommandResult). x.1) (outcome_value h₃)) in
    let (owner, id) = find-is_order organization order_id s.orders.orders order found in
    (
      order,
      editable,
      same,
      result ∙ ap result_of (sym same),
      Changed-eq same (record {
        located = found;
        current = (==_iff order.version expected_version).0 version;
        next = refl;
        same_id = id;
        same_organization = owner;
        saved = ap (λ (x : Database). x.orders.orders) (outcome_state h₃);
      }),
    )

-- A new order is a draft of version 1 and of no amounts, without snapshots and dates, for the
-- customer that is asked for and through the channel without the blanks around it. Its number is the
-- next one of its organization, or 1 where the organization has no sequence; the sequence of the
-- organization moves on to the number after it, and those of the others stay. The row stands before
-- the other orders, which are not changed, nor is any item.
pub create_order_work_effect :
    (organization : ℕ) (customer : Customer) (actor : User) (channel key : Text) (s : Database)
    {o : Order} {v : CommandResult} {s' : Database}
    → create_order_work organization customer actor channel key s ≡ ok (o, v) s'
    → (o ≡ record {
      id = s.journal.next_id;
      organization = organization;
      number = o.number;
      customer = customer.id;
      status = draft;
      channel = strip channel;
      subtotal = 0;
      discount_total = 0;
      surcharge_total = 0;
      total = 0;
      snapshots = record {
        customer_name = [];
        customer_document = [];
        customer_contact = none;
        shipping_address = none;
        billing_address = none;
      };
      version = 1;
      created_by = actor.id;
      confirmed_at = none;
      cancelled_at = none;
      cancel_reason = [];
    })
      × (v ≡ record { order = o.id; item = none; version = 1 })
      × IsNumbered organization o.number s.orders.sequences s'.orders.sequences
      × (s'.orders.orders ≡ o ∷ s.orders.orders)
      × (s'.orders.items ≡ s.orders.items)
unfolding create_order_work allocate_order_number
create_order_work_effect organization customer actor channel key s {s' = s'} h =
    let (same, result, rows) = recorded _ _ actor created key _ h in
    let sequences = ap (λ (r : OrderRows). r.sequences) rows in
    let numbered = take_number-IsNumbered organization s.orders.sequences in
    (
      same
          ∙ ap (λ n. new_order s.journal.next_id organization n customer (strip channel) actor)
              (sym (ap (λ (x : Order). x.number) same)),
      result ∙ ap (λ (x : Order). record { order = x.id; item = none; version = 1 }) (sym same),
      subst (λ n. IsNumbered organization n s.orders.sequences s'.orders.sequences)
          (sym (ap (λ (x : Order). x.number) same))
          (subst
            (IsNumbered organization (take_number organization s.orders.sequences).0
              s.orders.sequences)
            (sym sequences) numbered),
      ap (λ (r : OrderRows). r.orders) rows ∙ ap (λ x. x ∷ s.orders.orders) (sym same),
      ap (λ (r : OrderRows). r.items) rows,
    )
