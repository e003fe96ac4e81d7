-- ===== src/Fulfillment/Allocations.antt =====
-- The quantities of apps/fulfillment/services.py that a batch takes from the items of an order.
pub mod Held
pub mod Bounds
use vidalys_flow.Common.{
  ℕ, zero, suc, ◌+◌, Bool, true, false, ◌&&◌, not, Option, none, some, List, [], ◌∷◌, length, any,
  find, select, sum_of, ltb, leb, ◌==◌, if◌then◌else◌,
}
use vidalys_flow.Numeric.{ℤ, pos, negsuc, Decimal, quantize}
use vidalys_flow.Transaction.{Service, ◌>>=◌, ◌>>◌, pure, raise, gets, raise_if, unless, or_raise}
use vidalys_flow.Database.{Database}
use vidalys_flow.Orders.Tables.{OrderItem}
use vidalys_flow.Fulfillment.Tables.{Fulfillment, FulfillmentItem, FulfillmentTables, is_cancelled}
use vidalys_flow.Fulfillment.Errors.{FulfillmentService, organization_mismatch, invalid_fulfillment}

-- An allocation as it is asked for, and with its quantity in thousandths.
pub record RequestedAllocation : Type 0 where
  pub order_item : ℕ
  pub quantity : Decimal

pub record Allocation : Type 0 where
  pub order_item : ℕ
  pub quantity : ℕ

abbrev pub positive_quantity : Option ℤ → FulfillmentService ℕ
positive_quantity none = raise invalid_fulfillment
positive_quantity (some (negsuc n)) = raise invalid_fulfillment
positive_quantity (some (pos zero)) = raise invalid_fulfillment
positive_quantity (some (pos (suc n))) = pure (suc n)

-- The `quantity` of this application: three places, half up, positive.
unfoldable pub allocation_quantity : Decimal → FulfillmentService ℕ
allocation_quantity value = positive_quantity (quantize 3 value)

-- The loop of `_canonical_allocations`, with the items that it has seen.
unfoldable pub canonical_from :
    List ℕ → List RequestedAllocation → FulfillmentService (List Allocation)
canonical_from seen [] = pure []
canonical_from seen (r ∷ rs) = do
  raise_if (any (λ id. id == r.order_item) seen) invalid_fulfillment
  q ← allocation_quantity r.quantity
  rest ← canonical_from (r.order_item ∷ seen) rs
  pure (record { order_item = r.order_item; quantity = q } ∷ rest)

abbrev pub insert_allocation : Allocation → List Allocation → List Allocation
insert_allocation a [] = a ∷ []
insert_allocation a (b ∷ bs) = elim (ltb b.order_item a.order_item) [
  | true ↦ b ∷ insert_allocation a bs
  | false ↦ a ∷ b ∷ bs
]

-- `sorted(...)` by the identifier.
abbrev pub sort_allocations : List Allocation → List Allocation
sort_allocations [] = []
sort_allocations (a ∷ more) = insert_allocation a (sort_allocations more)

abbrev pub is_empty_batch : List Allocation → Bool
is_empty_batch [] = true
is_empty_batch (a ∷ more) = false

unfoldable pub canonical_allocations :
    List RequestedAllocation → FulfillmentService (List Allocation)
canonical_allocations allocations = do
  canonical ← canonical_from [] allocations
  raise_if (is_empty_batch canonical) invalid_fulfillment
  pure (sort_allocations canonical)

-- The items of the order among those of the batch.
abbrev pub locked_items : ℕ → ℕ → List Allocation → List OrderItem → List OrderItem
locked_items organization order_id allocations = select (λ i.
    i.organization == organization
    && i.order == order_id
    && any (λ a. a.order_item == i.id) allocations)

abbrev pub is_excluded : Option ℕ → ℕ → Bool
is_excluded none id = false
is_excluded (some excluded) id = id == excluded

-- A row of a batch that is not cancelled counts, unless it belongs to the batch that is replaced.
abbrev pub counts : Option ℕ → List Fulfillment → FulfillmentItem → Bool
counts excluded fulfillments row = elim (find (λ f. f.id == row.fulfillment) fulfillments) [
  | none ↦ false
  | some f ↦ not (is_cancelled f.status) && not (is_excluded excluded f.id)
]

-- `allocated.get(item.id, Decimal("0.000"))`
unfoldable pub allocated : ℕ → Option ℕ → FulfillmentTables → ℕ → ℕ
allocated organization excluded tables order_item =
    sum_of (λ (r : FulfillmentItem). r.quantity)
      (select
        (λ r.
          r.organization == organization
          && r.order_item == order_item
          && counts excluded tables.fulfillments r)
        tables.items)

unfoldable pub validate_each :
    ℕ
    → Option ℕ
    → FulfillmentTables
    → List OrderItem
    → List Allocation
    → FulfillmentService (Unit {0})
validate_each organization excluded tables locked [] = pure tt
validate_each organization excluded tables locked (a ∷ more) = do
  item ← or_raise (find (λ i. i.id == a.order_item) locked) organization_mismatch
  raise_if (ltb item.quantity (allocated organization excluded tables a.order_item + a.quantity))
      invalid_fulfillment
  validate_each organization excluded tables locked more

-- The locked row of each item with the quantity that is asked for.
unfoldable pub locked_rows :
    List OrderItem → List Allocation → FulfillmentService (List (OrderItem × ℕ))
locked_rows locked [] = pure []
locked_rows locked (a ∷ more) = do
  item ← or_raise (find (λ i. i.id == a.order_item) locked) organization_mismatch
  rest ← locked_rows locked more
  pure ((item, a.quantity) ∷ rest)

-- `_lock_and_validate_allocations`. Identifiers that differ have a locked row each where as many rows
-- are found, so that no lookup of a row fails after the comparison.
unfoldable pub lock_and_validate_allocations :
    ℕ → ℕ → List Allocation → Option ℕ → FulfillmentService (List (OrderItem × ℕ))
lock_and_validate_allocations organization order_id allocations excluded = do
  items ← gets (λ s. s.orders.items)
  tables ← gets (λ s. s.fulfillment)
  let locked = locked_items organization order_id allocations items
  unless (length locked == length allocations) organization_mismatch
  validate_each organization excluded tables locked allocations
  locked_rows locked allocations
