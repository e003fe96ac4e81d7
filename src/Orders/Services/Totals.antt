-- ===== src/Orders/Services/Totals.antt =====
-- The totals of an order are those of its items.
use vidalys_flow.Common.{ℕ, ◌≡◌, refl, sym, ap, ◌∙◌, List, map, replace, leb, ◌==◌}
use mathlib.Core.Path.{subst}
use vidalys_flow.Numeric.{ℤ, pos, negsuc}
use vidalys_flow.Transaction.{ok, >>=-eq-ok, unless-bind, outcome_state, outcome_value}
use vidalys_flow.Database.{Database}
use vidalys_flow.Orders.Calculations
use vidalys_flow.Orders.Calculations.{Amount, OrderAmounts, calculate_order}
use vidalys_flow.Orders.Tables.{Order, OrderItem}
use vidalys_flow.Orders.Errors.{integrity_error}
use vidalys_flow.Orders.Services.{
  item_amounts, items_of, calculated, with_totals, set_orders, recalculate,
}

abbrev pub amounts_of : Order → OrderAmounts
amounts_of o = record {
  subtotal = o.subtotal;
  discount_total = o.discount_total;
  surcharge_total = o.surcharge_total;
  total = pos o.total;
}

-- The totals of the row are what `calculate_order` makes of the items of the order.
abbrev pub IsTotalled : List OrderItem → Order → Type 0
IsTotalled items o =
    calculate_order (map item_amounts (items_of o.id items)) ≡ Calculations.valued (amounts_of o)

calculated-eq-ok :
    {A : Type 0} (m : Amount A) (s : Database) {a : A} {s' : Database}
    → calculated m s ≡ ok a s'
    → (m ≡ Calculations.valued a) × (s' ≡ s)
calculated-eq-ok (Calculations.valued a) s h =
    (ap Calculations.valued (outcome_value h), outcome_state h)
calculated-eq-ok (Calculations.refused e) s h = cc

-- An order with the totals written in.
abbrev pub retotalled : Order → OrderAmounts → ℕ → Order
retotalled order t total = record order {
  subtotal = t.subtotal;
  discount_total = t.discount_total;
  surcharge_total = t.surcharge_total;
  total = total;
}

with_totals-eq-ok :
    (order : Order) (t : OrderAmounts) (z : ℤ) (s : Database) {o : Order} {s' : Database}
    → with_totals order t z s ≡ ok o s'
    → (total : ℕ) × (z ≡ pos total) × (o ≡ retotalled order t total) × (s' ≡ s)
with_totals-eq-ok order t (negsuc n) s h = cc
with_totals-eq-ok order t (pos n) s h =
    let (covered, h₁) = unless-bind (leb t.discount_total t.subtotal) integrity_error _ s h in
    (n, refl, sym (outcome_value h₁), outcome_state h₁)

-- What a recalculation saves has the totals of the items, and differs from the order in nothing else.
pub recalculate_effect :
    (order : Order) (s : Database) {o : Order} {s' : Database}
    → recalculate order s ≡ ok o s'
    → (t : OrderAmounts) × (total : ℕ) × (o ≡ retotalled order t total)
      × IsTotalled s.orders.items o
      × (s' ≡ set_orders (replace (λ r. r.id == o.id) o s.orders.orders) s)
unfolding recalculate
recalculate_effect order s h =
    let (t, s₁, calculation, h₁) =
      >>=-eq-ok (calculated (calculate_order (map item_amounts (items_of order.id s.orders.items))))
        _ s h in
    let (made, same₁) =
      calculated-eq-ok (calculate_order (map item_amounts (items_of order.id s.orders.items))) s
        calculation in
    let (o', s₂, written, h₂) = >>=-eq-ok (with_totals order t t.total) _ s₁ h₁ in
    let (total, positive, row, same₂) = with_totals-eq-ok order t t.total s₁ written in
    let state = same₂ ∙ same₁ in
    let same_row = sym (outcome_value h₂) in
    let o-eq = same_row ∙ row in
    let write =
      λ (x : Order) (y : Database). set_orders (replace (λ r. r.id == x.id) x y.orders.orders) y in
    (
      t,
      total,
      o-eq,
      subst (IsTotalled s.orders.items) (sym o-eq)
          (made ∙ ap (λ (z : ℤ). Calculations.valued (record t { total = z })) positive),
      outcome_state h₂ ∙ ap (write o') state ∙ ap (λ (x : Order). write x s) (sym same_row),
    )
