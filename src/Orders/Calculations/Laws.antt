-- ===== src/Orders/Calculations/Laws.antt =====
-- The amounts of a line and of an order, and the checks that the tables make on them.
use vidalys_flow.Common.{
  ℕ, zero, suc, ◌+◌, ◌-◌, ◌*◌, ◌^◌, ◌≤◌, ◌<◌, ◌≡◌, refl, ◌⊎◌, inl, inr, List, [], ◌∷◌, map, sum_of,
  All, arith, lt→ltb, ltb, Bool-cases, ltb→lt,
}
use vidalys_flow.Numeric.{ℤ, pos, negsuc, Decimal, precision_limit, round_half_up}
use vidalys_flow.Numeric.Rounding.{round_half_up_nearest, context_round_short}
use vidalys_flow.Orders.Calculations.{
  valued, refused, LineAmounts, ItemAmounts, OrderAmounts, line_of, calculate_line, calculate_order,
  money_of_product, money_of_cents, money_of_signed, >>=-eq-valued, money, quantity,
  discount_above_gross,
}

-- What the table of items demands of a line (`order_item_*` constraints).
pub record IsLineValid (l : LineAmounts) : Type 0 where
  pub quantity_positive : 0 < l.quantity
  pub discount_covered : l.discount_amount ≤ l.gross_total
  pub total_formula : l.total + l.discount_amount ≡ l.gross_total + l.surcharge_amount

-- A line that the source's checks let through.
line_of-IsLineValid : (q p d s : ℤ) {l : LineAmounts} → line_of q p d s ≡ valued l → IsLineValid l
unfolding line_of money_of_cents
line_of-IsLineValid (pos zero) p d s h = cc
line_of-IsLineValid (negsuc n) p d s h = cc
line_of-IsLineValid (pos (suc q)) (negsuc p) d s h = cc
line_of-IsLineValid (pos (suc q)) (pos p) (negsuc d) s h = cc
line_of-IsLineValid (pos (suc q)) (pos p) (pos d) (negsuc s) h = cc
line_of-IsLineValid (pos (suc q)) (pos p) (pos d) (pos s) h = ground arith

money_of_cents-ok : (c : ℕ) {g : ℕ} → money_of_cents c ≡ valued g → g ≡ c
unfolding money_of_cents
money_of_cents-ok c h = ground arith

money_of_cents_short : (c : ℕ) → c < precision_limit → money_of_cents c ≡ valued c
unfolding money_of_cents
money_of_cents_short c h = rw (lt→ltb c precision_limit h) refl

-- The half-up rounding of the exact product, where the context holds it.
abbrev pub exact_gross : ℕ → ℕ → ℕ
exact_gross q p = round_half_up (q * p) 1000

money_of_product_lem :
    (q p : ℕ)
    → q * p < precision_limit
    → (money_of_product q p ≡ valued (exact_gross q p)) × (exact_gross q p ≤ q * p + 1)
unfolding money_of_product
money_of_product_lem q p h =
    let near = round_half_up_nearest (q * p) 1000 (omega arith) in
    (
      rw (context_round_short (q * p) h)
          (money_of_cents_short (round_half_up (q * p) 1000) (omega arith)),
      omega arith,
    )

-- A line that `calculate_line` returns meets the constraints of the table of items.
pub calculate_line-IsLineValid :
    (item_quantity unit_price discount surcharge : Decimal) {l : LineAmounts}
    → calculate_line item_quantity unit_price discount surcharge ≡ valued l
    → IsLineValid l
unfolding calculate_line
calculate_line-IsLineValid iq up d s {l} h =
    let (q, _, h₁) = >>=-eq-valued (quantity iq) _ h in
    let (p, _, h₂) = >>=-eq-valued (money up) _ h₁ in
    let (d', _, h₃) = >>=-eq-valued (money d) _ h₂ in
    let (s', _, h₄) = >>=-eq-valued (money s) _ h₃ in line_of-IsLineValid q p d' s' h₄

-- The gross total of a line is the nearest cent to quantity times price, a tie going up, for
-- every product that 28 digits hold.
pub line_of_gross :
    (q p d s : ℕ) {l : LineAmounts}
    → suc q * p < precision_limit
    → line_of (pos (suc q)) (pos p) (pos d) (pos s) ≡ valued l
    → (2 * (l.gross_total * 1000) ≤ 2 * (suc q * p) + 1000)
      × (2 * (suc q * p) < 2 * (l.gross_total * 1000) + 1000)
unfolding line_of money_of_cents
line_of_gross q p d s h e =
    let near = round_half_up_nearest (suc q * p) 1000 (omega arith) in
    ground (arith, money_of_product_lem (suc q) p h)

-- Normalized amounts in the range of the columns make a line exactly when the discount does not
-- exceed the gross total; otherwise the discount is refused.
pub line_of_decides :
    (q p d s : ℕ)
    → suc q * p < 10 ^ 26
    → s < 10 ^ 26
    → ((d ≤ exact_gross (suc q) p)
        × (l : LineAmounts) × (line_of (pos (suc q)) (pos p) (pos d) (pos s) ≡ valued l)
        × (l.total + d ≡ exact_gross (suc q) p + s))
      ⊎ ((exact_gross (suc q) p < d)
          × (line_of (pos (suc q)) (pos p) (pos d) (pos s) ≡ refused discount_above_gross))
unfolding line_of
line_of_decides q p d s h k =
    let g = exact_gross (suc q) p in
    let (made, near) = money_of_product_lem (suc q) p (omega arith) in
    elim (Bool-cases (ltb g d)) [
      | inl over ↦ inr (ltb→lt g d over, rw (made, over) refl)
      | inr fits ↦
          let covered : d ≤ g = ground arith in
          inl (
            covered,
            record {
              quantity = suc q;
              unit_price = p;
              gross_total = g;
              discount_amount = d;
              surcharge_amount = s;
              total = g - d + s;
            },
            rw (made, fits, money_of_cents_short (g - d + s) (omega arith)) refl,
            omega arith,
          )
    ]

-- What the table of orders demands of the totals (`order_*` constraints).
pub record IsOrderValid (o : OrderAmounts) : Type 0 where
  pub amount : ℕ
  pub total_non_negative : o.total ≡ pos amount
  pub discount_covered : o.discount_total ≤ o.subtotal
  pub total_formula : amount + o.discount_total ≡ o.subtotal + o.surcharge_total

abbrev pub amounts_of : LineAmounts → ItemAmounts
amounts_of l = record {
  gross_total = l.gross_total;
  discount_amount = l.discount_amount;
  surcharge_amount = l.surcharge_amount;
}

-- The sums over lines that are valid are in order, and the totals of the lines add up to theirs.
lines_sums :
    (ls : List LineAmounts)
    → All IsLineValid ls
    → (sum_of (λ i. i.discount_amount) (map amounts_of ls)
        ≤ sum_of (λ i. i.gross_total) (map amounts_of ls))
      × (sum_of (λ l. l.total) ls + sum_of (λ i. i.discount_amount) (map amounts_of ls)
          ≡ sum_of (λ i. i.gross_total) (map amounts_of ls)
            + sum_of (λ i. i.surcharge_amount) (map amounts_of ls))
lines_sums [] h = omega arith
lines_sums (l ∷ ls) h = omega (arith, lines_sums ls h.1)

-- The totals of an order of valid lines meet the constraints of the table of orders, and the total
-- of the order is the sum of the totals of its lines.
pub calculate_order-IsOrderValid :
    (ls : List LineAmounts) {o : OrderAmounts}
    → All IsLineValid ls
    → calculate_order (map amounts_of ls) ≡ valued o
    → IsOrderValid o × (o.total ≡ pos (sum_of (λ l. l.total) ls))
unfolding calculate_order money_of_cents money_of_signed
calculate_order-IsOrderValid ls h e = (
  record {
    amount = sum_of (λ l. l.total) ls;
    total_non_negative = ground (arith, lines_sums ls h);
    discount_covered = ground (arith, lines_sums ls h);
    total_formula = ground (arith, lines_sums ls h);
  },
  ground (arith, lines_sums ls h),
)
