-- ===== src/Fulfillment/Allocations/Bounds.antt =====
-- The quantities that a batch may take.
use vidalys_flow.Common.{
  ℕ, ◌+◌, ◌≤◌, ◌≡◌, sym, ap, ◌∙◌, Bool, true, false, ◌&&◌, Option, some, List, [], ◌∷◌, All, any,
  map, find, find_passes, find_cases, inl, inr, ==_iff, select, length, ltb, ◌==◌, arith,
}
use mathlib.Core.Path.{subst}
use mathlib.Core.Option.{some-injective}
use vidalys_flow.Transaction.{
  ok, >>=-eq-ok, or_raise-bind, unless-bind, raise_if-bind, outcome_state, outcome_value,
}
use vidalys_flow.Database.{Database}
use vidalys_flow.Orders.Tables.{OrderItem}
use vidalys_flow.Fulfillment.Tables.{FulfillmentTables}
use vidalys_flow.Fulfillment.Errors.{organization_mismatch, invalid_fulfillment}
use vidalys_flow.Fulfillment.Allocations.{
  Allocation, locked_items, allocated, validate_each, locked_rows, lock_and_validate_allocations,
}
use vidalys_flow.Fulfillment.Allocations.Held.{held_of, allocated-eq}

-- A stored item of the order, of which the batches leave what is asked for.
abbrev pub IsCovered : ℕ → ℕ → Option ℕ → Database → List Allocation → OrderItem × ℕ → Type 0
IsCovered organization order_id replaced s asked (item, quantity) =
    (find
        (λ i.
          (i.organization == organization
            && i.order == order_id
            && any (λ a. a.order_item == i.id) asked)
          && i.id == item.id)
        s.orders.items
      ≡ some item)
    × (held_of organization replaced s.fulfillment item.id + quantity ≤ item.quantity)

find-select :
    (p q : OrderItem → Bool) (xs : List OrderItem) (a : OrderItem)
    → find q (select p xs) ≡ some a
    → find (λ x. p x && q x) xs ≡ some a
find-select p q [] a h = cc
find-select p q (x ∷ xs) a h = go (p x) h (find-select p q xs a)
  where
    go :
        (b : Bool)
        → find q (elim b [ true ↦ x ∷ select p xs | false ↦ select p xs ]) ≡ some a
        → (find q (select p xs) ≡ some a → find (λ y. p y && q y) xs ≡ some a)
        → (elim (b && q x) [ true ↦ some x | false ↦ find (λ y. p y && q y) xs ]) ≡ some a
    go true e rest = elim (find_cases q x (select p xs) a e) [
      | inl (same, hit) ↦ rw hit (ap some (sym same))
      | inr (miss, later) ↦ rw miss (rest later)
    ]
    go false e rest = rest e

-- An allocation that the check accepts.
abbrev IsFit : ℕ → Option ℕ → FulfillmentTables → List OrderItem → Allocation → Type 0
IsFit organization replaced tables locked a =
    (item : OrderItem) × (find (λ i. i.id == a.order_item) locked ≡ some item)
    × (allocated organization replaced tables a.order_item + a.quantity ≤ item.quantity)

not_less : (a b : ℕ) → ltb a b ≡ false → b ≤ a
not_less a b h = ground arith

validate_each-IsFit :
    (organization : ℕ) (replaced : Option ℕ) (tables : FulfillmentTables) (locked : List OrderItem)
    (allocations : List Allocation) (s : Database) {u : Unit {0}} {s' : Database}
    → validate_each organization replaced tables locked allocations s ≡ ok u s'
    → All (IsFit organization replaced tables locked) allocations × (s' ≡ s)
unfolding validate_each
validate_each-IsFit organization replaced tables locked [] s h = (tt, outcome_state h)
validate_each-IsFit organization replaced tables locked (a ∷ more) s h =
    let (item, found, h₁) =
      or_raise-bind (find (λ i. i.id == a.order_item) locked) organization_mismatch _ s h in
    let (fits, h₂) =
      raise_if-bind
        (ltb item.quantity (allocated organization replaced tables a.order_item + a.quantity))
        invalid_fulfillment _ s h₁ in
    let (fit, same) = validate_each-IsFit organization replaced tables locked more s h₂ in
    (((item, found, not_less item.quantity _ fits), fit), same)

-- A locked row of which the batches leave the quantity.
abbrev IsLeft : ℕ → Option ℕ → FulfillmentTables → List OrderItem → OrderItem × ℕ → Type 0
IsLeft organization replaced tables locked (item, quantity) =
    (find (λ i. i.id == item.id) locked ≡ some item)
    × (held_of organization replaced tables item.id + quantity ≤ item.quantity)

fit-IsLeft :
    (organization : ℕ) (replaced : Option ℕ) (tables : FulfillmentTables) (locked : List OrderItem)
    (a : Allocation) (item : OrderItem)
    → find (λ i. i.id == a.order_item) locked ≡ some item
    → IsFit organization replaced tables locked a
    → (a.order_item ≡ item.id) × IsLeft organization replaced tables locked (item, a.quantity)
fit-IsLeft organization replaced tables locked a item found (fit, located, room) =
    let same : fit ≡ item = some-injective fit item (sym located ∙ found) in
    let id : item.id ≡ a.order_item =
      (==_iff item.id a.order_item).0 (find_passes (λ i. i.id == a.order_item) locked item found) in
    let held = ap (held_of organization replaced tables) id in
    (
      sym id,
      (
        ap (λ n. find (λ i. i.id == n) locked) id ∙ found,
        omega (
          arith,
          held,
          allocated-eq organization replaced tables a.order_item,
          room,
          ap (λ (i : OrderItem). i.quantity) same,
        ),
      ),
    )

abbrev pub named : OrderItem × ℕ → ℕ × ℕ
named (item, quantity) = (item.id, quantity)

abbrev pub asked_for : Allocation → ℕ × ℕ
asked_for a = (a.order_item, a.quantity)

rows-IsLeft :
    (organization : ℕ) (replaced : Option ℕ) (tables : FulfillmentTables) (locked : List OrderItem)
    (allocations : List Allocation) (s : Database) {rows : List (OrderItem × ℕ)} {s' : Database}
    → All (IsFit organization replaced tables locked) allocations
    → locked_rows locked allocations s ≡ ok rows s'
    → (map named rows ≡ map asked_for allocations)
      × (s' ≡ s)
      × All (IsLeft organization replaced tables locked) rows
unfolding locked_rows
rows-IsLeft organization replaced tables locked [] s fit h =
    let same = sym (outcome_value h) in
    (
      ap (map named) same,
      outcome_state h,
      subst (All (IsLeft organization replaced tables locked)) (outcome_value h) tt,
    )
rows-IsLeft organization replaced tables locked (a ∷ more) s (fit, fits) h =
    let (item, found, h₁) =
      or_raise-bind (find (λ i. i.id == a.order_item) locked) organization_mismatch _ s h in
    let (rest, s₁, later, h₂) = >>=-eq-ok (locked_rows locked more) _ s h₁ in
    let (names, state, left) = rows-IsLeft organization replaced tables locked more s fits later in
    let (id, head) = fit-IsLeft organization replaced tables locked a item found fit in
    let all = subst (All (IsLeft organization replaced tables locked)) (outcome_value h₂) in
    (
      ap (map named) (sym (outcome_value h₂))
          ∙ ap (λ n. (n, a.quantity) ∷ map named rest) (sym id)
          ∙ ap (λ ns. asked_for a ∷ ns) names,
      outcome_state h₂ ∙ state,
      all (head, left),
    )

covered :
    (organization order_id : ℕ) (replaced : Option ℕ) (s : Database) (asked : List Allocation)
    (rows : List (OrderItem × ℕ))
    → All
        (IsLeft organization replaced s.fulfillment
          (locked_items organization order_id asked s.orders.items))
        rows
    → All (IsCovered organization order_id replaced s asked) rows
covered organization order_id replaced s asked [] left = tt
covered organization order_id replaced s asked ((item, q) ∷ rows) ((found, room), left) = (
  (find-select _ _ s.orders.items item found, room),
  covered organization order_id replaced s asked rows left,
)

-- Allocations that are accepted come back as the rows of their items with the quantities that were
-- asked for, in the order of the request. Each row is that of a stored item of the order and of the
-- organization, and the quantity, added to what the stored batches of the organization hold of the
-- item, is no more than the item has; a batch that is cancelled or that is the one to be replaced
-- holds nothing. The check changes nothing.
pub lock_and_validate_allocations-IsCovered :
    (organization order_id : ℕ) (allocations : List Allocation) (replaced : Option ℕ) (s : Database)
    {rows : List (OrderItem × ℕ)} {s' : Database}
    → lock_and_validate_allocations organization order_id allocations replaced s ≡ ok rows s'
    → (map {B = ℕ × ℕ} (λ (r : OrderItem × ℕ). ((r.0).id, r.1)) rows
        ≡ map (λ (a : Allocation). (a.order_item, a.quantity)) allocations)
      × (s' ≡ s)
      × All (IsCovered organization order_id replaced s allocations) rows
unfolding lock_and_validate_allocations
lock_and_validate_allocations-IsCovered organization order_id allocations replaced s h =
    let locked = locked_items organization order_id allocations s.orders.items in
    let (all_found, h₁) =
      unless-bind (length locked == length allocations) organization_mismatch _ s h in
    let (u, s₁, valid, h₂) =
      >>=-eq-ok (validate_each organization replaced s.fulfillment locked allocations) _ s h₁ in
    let (fit, same) =
      validate_each-IsFit organization replaced s.fulfillment locked allocations s valid in
    let (names, state, left) =
      rows-IsLeft organization replaced s.fulfillment locked allocations s₁ fit h₂ in
    (names, state ∙ same, covered organization order_id replaced s allocations _ left)
