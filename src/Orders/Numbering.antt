-- ===== src/Orders/Numbering.antt =====
-- apps/orders/numbering.py: the number of the next order of an organization. Where the organization
-- has no sequence yet, one is inserted with its default, 1; another transaction that inserts it
-- first makes the insertion fail, and its row is read instead.
pub mod Sequences
use vidalys_flow.Common.{ℕ, suc, none, some, Bool, List, ◌∷◌, find, replace, ◌==◌}
use vidalys_flow.Transaction.{ok}
use vidalys_flow.Orders.Tables.{OrderNumberSequence}
use vidalys_flow.Orders.Errors.{OrderService}

abbrev pub is_sequence_of : ℕ → OrderNumberSequence → Bool
is_sequence_of organization q = q.organization == organization

-- The table of sequences and the number that is taken from it.
unfoldable pub take_number : ℕ → List OrderNumberSequence → ℕ × List OrderNumberSequence
take_number organization rows = elim (find (is_sequence_of organization) rows) [
  | none ↦ (1, record { organization = organization; next_number = 2 } ∷ rows)
  | some q ↦ (
    q.next_number,
    replace (is_sequence_of organization)
        (record { organization = organization; next_number = suc q.next_number }) rows,
  )
]

unfoldable pub allocate_order_number : ℕ → OrderService ℕ
unfolding take_number
allocate_order_number organization s =
    let t = s.orders in
    let (number, rows) = take_number organization t.sequences in
    ok number (record s { orders = record t { sequences = rows } })
