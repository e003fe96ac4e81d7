-- ===== src/Fulfillment/Allocations/Held.antt =====
-- What the stored batches hold of an item, by their status, and that `allocated` computes it.
use vidalys_flow.Common.{
  ℕ, ◌+◌, ◌≡◌, refl, Bool, true, false, ◌&&◌, not, Option, none, some, List, [], ◌∷◌, find, select,
  sum_of, ◌==◌, arith, if◌then◌else◌,
}
use vidalys_flow.Fulfillment.Tables.{
  Status, draft, preparing, ready, in_transit, completed, cancelled, Fulfillment, FulfillmentItem,
  FulfillmentTables, is_cancelled,
}
use vidalys_flow.Fulfillment.Allocations.{counts, is_excluded, allocated}

-- What a row of a batch holds of its item: its quantity in every status but the last, unless the
-- batch is the one that is replaced.
abbrev pub held : Status → Bool → ℕ → ℕ
held cancelled is_replaced q = 0
held draft is_replaced q = if is_replaced then 0 else q
held preparing is_replaced q = if is_replaced then 0 else q
held ready is_replaced q = if is_replaced then 0 else q
held in_transit is_replaced q = if is_replaced then 0 else q
held completed is_replaced q = if is_replaced then 0 else q

abbrev pub held_by : Option ℕ → Option Fulfillment → ℕ → ℕ
held_by replaced none q = 0
held_by none (some f) q = held f.status false q
held_by (some id) (some f) q = held f.status (f.id == id) q

-- What the stored batches hold of an item.
abbrev pub held_of : ℕ → Option ℕ → FulfillmentTables → ℕ → ℕ
held_of organization replaced tables item =
    sum_of
      (λ (r : FulfillmentItem).
        if r.organization == organization && r.order_item == item
        then held_by replaced (find (λ f. f.id == r.fulfillment) tables.fulfillments) r.quantity
        else 0)
      tables.items

held-eq :
    (status : Status) (b : Bool) (q : ℕ)
    → held status b q ≡ elim (not (is_cancelled status) && not b) [ true ↦ q | false ↦ 0 ]
held-eq cancelled b q = refl
held-eq draft true q = refl
held-eq draft false q = refl
held-eq preparing true q = refl
held-eq preparing false q = refl
held-eq ready true q = refl
held-eq ready false q = refl
held-eq in_transit true q = refl
held-eq in_transit false q = refl
held-eq completed true q = refl
held-eq completed false q = refl

held_by-eq :
    (replaced : Option ℕ) (f : Option Fulfillment) (q : ℕ)
    → held_by replaced f q
      ≡ elim (elim f as (λ _. Bool) [
        | none ↦ false
        | some g ↦ not (is_cancelled g.status) && not (is_excluded replaced g.id)
      ]) [ true ↦ q | false ↦ 0 ]
held_by-eq replaced none q = refl
held_by-eq none (some f) q = held-eq f.status false q
held_by-eq (some id) (some f) q = held-eq f.status (f.id == id) q

held_row-eq :
    (a b c : Bool) (w q : ℕ)
    → w ≡ elim c [ true ↦ q | false ↦ 0 ]
    → (if a && b then w else 0) ≡ elim (a && b && c) [ true ↦ q | false ↦ 0 ]
held_row-eq true true c w q h = h
held_row-eq true false c w q h = refl
held_row-eq false b c w q h = refl

sum_of-select :
    (f w : FulfillmentItem → ℕ) (p : FulfillmentItem → Bool) (xs : List FulfillmentItem)
    → ((r : FulfillmentItem) → w r ≡ elim (p r) [ true ↦ f r | false ↦ 0 ])
    → sum_of f (select p xs) ≡ sum_of w xs
sum_of-select f w p [] h = refl
sum_of-select f w p (x ∷ xs) h = go (p x) (h x) (sum_of-select f w p xs h)
  where
    go :
        (b : Bool)
        → w x ≡ elim b [ true ↦ f x | false ↦ 0 ]
        → sum_of f (select p xs) ≡ sum_of w xs
        → sum_of f (elim b [ true ↦ x ∷ select p xs | false ↦ select p xs ]) ≡ w x + sum_of w xs
    go true e rest = omega (arith, e, rest)
    go false e rest = omega (arith, e, rest)

pub allocated-eq :
    (organization : ℕ) (replaced : Option ℕ) (tables : FulfillmentTables) (item : ℕ)
    → allocated organization replaced tables item ≡ held_of organization replaced tables item
unfolding allocated
allocated-eq organization replaced tables item =
    sum_of-select (λ r. r.quantity) _ _ tables.items
      λ r.
        held_row-eq (r.organization == organization) (r.order_item == item)
          (counts replaced tables.fulfillments r) _ r.quantity
          (held_by-eq replaced (find (λ f. f.id == r.fulfillment) tables.fulfillments) r.quantity)
