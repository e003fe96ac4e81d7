-- ===== src/Tests/CalculationTests.antt =====
-- apps/orders/calculations.py and the receipts at concrete inputs.
use vidalys_flow.Common.{
  ℕ, ◌+◌, ◌*◌, ◌≤◌, ◌<◌, ◌≡◌, ◌≢◌, refl, ◌⊎◌, false, [], ◌∷◌, map, sum_of, arith, ◌++◌,
}
use vidalys_flow.Text.{codes, lstrip, rstrip, strip, is_space}
use vidalys_flow.Numeric.{pos, Decimal, context_round, quantize, round_half_up}
use vidalys_flow.Orders.Calculations.{
  valued, refused, LineAmounts, OrderAmounts, line_of, calculate_line, calculate_order,
  money_of_product, money_of_cents, money_of_signed, money, quantity, discount_above_gross,
}
use vidalys_flow.Orders.Calculations.Laws.{
  IsLineValid, IsOrderValid, amounts_of, exact_gross, calculate_line-IsLineValid, line_of_gross,
  line_of_decides, calculate_order-IsOrderValid,
}
use vidalys_flow.Idempotency.{
  Receipt, replayed, fresh, conflict, other_payload, not_completed, claim_command, complete_command,
  new_receipt, insert_receipt,
}
use vidalys_flow.Idempotency.Laws.{claim_again, claim_conflict, claim_never_twice, completed_with}

abbrev decimal : ℕ → ℕ → Decimal
decimal coefficient places = record { negative = false; coefficient = coefficient; places = places }

-- 2.5 units at 10.01, less 0.50, and 1.00 more.
abbrev line : LineAmounts
line = record {
  quantity = 2500;
  unit_price = 1001;
  gross_total = 2503;
  discount_amount = 50;
  surcharge_amount = 100;
  total = 2553;
}

line_made : calculate_line (decimal 25 1) (decimal 1001 2) (decimal 5 1) (decimal 1 0) ≡ valued line
unfolding calculate_line quantity money quantize line_of money_of_product money_of_cents
    context_round round_half_up
line_made = refl

calculate_line-IsLineValid_example : IsLineValid line
calculate_line-IsLineValid_example =
    calculate_line-IsLineValid (decimal 25 1) (decimal 1001 2) (decimal 5 1) (decimal 1 0) line_made

line_of_gross_example :
    (2 * (line.gross_total * 1000) ≤ 2 * (2500 * 1001) + 1000)
    × (2 * (2500 * 1001) < 2 * (line.gross_total * 1000) + 1000)
unfolding line_of money_of_product money_of_cents context_round round_half_up
line_of_gross_example = line_of_gross 2499 1001 50 100 {l = line} (omega arith) refl

line_of_decides_example :
    ((50 ≤ exact_gross 2500 1001)
      × (l : LineAmounts) × (line_of (pos 2500) (pos 1001) (pos 50) (pos 100) ≡ valued l)
      × (l.total + 50 ≡ exact_gross 2500 1001 + 100))
    ⊎ ((exact_gross 2500 1001 < 50)
        × (line_of (pos 2500) (pos 1001) (pos 50) (pos 100) ≡ refused discount_above_gross))
line_of_decides_example = line_of_decides 2499 1001 50 100 (omega arith) (omega arith)

abbrev totals : OrderAmounts
totals = record { subtotal = 5006; discount_total = 100; surcharge_total = 200; total = pos 5106 }

order_made : calculate_order (map amounts_of (line ∷ line ∷ [])) ≡ valued totals
unfolding calculate_order money_of_cents money_of_signed
order_made = refl

calculate_order-IsOrderValid_example :
    IsOrderValid totals × (totals.total ≡ pos (sum_of (λ l. l.total) (line ∷ line ∷ [])))
calculate_order-IsOrderValid_example =
    calculate_order-IsOrderValid (line ∷ line ∷ [])
      (calculate_line-IsLineValid_example, (calculate_line-IsLineValid_example, tt)) order_made

abbrev receipt : Receipt ℕ
receipt = new_receipt 1 (codes "confirm_order") (codes "k") 9

first_claim :
    claim_command {R = ℕ} [] 1 (codes "confirm_order") (codes " k ") 9 []
    ≡ (fresh receipt, receipt ∷ [])
unfolding claim_command insert_receipt strip lstrip rstrip is_space
first_claim = refl

claim_again_example :
    let done = complete_command receipt 7 (receipt ∷ []) in
    (claim_command [] 1 (codes "confirm_order") (codes " k ") 9 done
      ≡ (replayed (completed_with receipt 7), done))
    × (claim_command [] 1 (codes "confirm_order") (codes " k ") 9 (receipt ∷ [])
        ≡ (conflict not_completed, receipt ∷ []))
claim_again_example = claim_again [] [] 1 (codes "confirm_order") (codes " k ") 9 [] first_claim 7

claim_conflict_example :
    let done = complete_command receipt 7 (receipt ∷ []) in
    claim_command [] 1 (codes "confirm_order") (codes " k ") 8 done ≡ (conflict other_payload, done)
claim_conflict_example =
    claim_conflict [] [] 1 (codes "confirm_order") (codes " k ") 9 8 [] first_claim (omega arith) 7

claim_never_twice_example :
    claim_command [] 1 (codes "confirm_order") (codes " k ") 8 ([] ++ receipt ∷ [])
    ≢ (fresh receipt, [])
claim_never_twice_example =
    claim_never_twice [] [] 1 (codes "confirm_order") (codes " k ") 9 [] first_claim [] 8 receipt []
