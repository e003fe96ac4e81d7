-- ===== src/Orders/Calculations.antt =====
-- apps/orders/calculations.py: the amounts of a line and of an order, in cents and thousandths.
pub mod Laws
use vidalys_flow.Common.{
  ℕ, zero, suc, ◌+◌, ◌-◌, ◌*◌, ◌≡◌, refl, Bool, true, false, ◌||◌, Option, none, some, List, [],
  ◌∷◌, sum_of, ltb, leb, ◌==◌, if◌then◌else◌,
}
use vidalys_flow.Numeric.{
  ℤ, pos, negsuc, sub_ℕ, Decimal, precision_limit, context_round, round_half_up, quantize,
}

-- What a calculation raises: `ValueError` with one of its three messages, or the
-- `InvalidOperation` of `decimal` where a result has more than 28 digits.
pub data AmountError : Type 0 where
  quantity_not_positive negative_amount discount_above_gross invalid_operation : AmountError

-- A calculation that raises, or has its value.
pub data Amount (A : Type 0) : Type 0 where
  refused : AmountError → Amount A
  valued : A → Amount A

module _ {A B : Type 0} where
  infixl 5 ◌>>=◌
  abbrev pub ◌>>=◌ : Amount A → (A → Amount B) → Amount B
  ◌>>=◌ m next = elim m [ refused why ↦ refused why | valued a ↦ next a ]

  -- The value that a calculation goes on from, where the whole has one.
  pub >>=-eq-valued :
      (m : Amount A) (next : A → Amount B) {b : B}
      → (m >>= next) ≡ valued b
      → (a : A) × (m ≡ valued a) × (next a ≡ valued b)
  >>=-eq-valued (refused why) next whole = cc
  >>=-eq-valued (valued a) next whole = (a, refl, whole)

infixl 5 ◌>>◌
abbrev pub ◌>>◌ : {B : Type 0} → Amount (Unit {0}) → Amount B → Amount B
check >> after = check >>= λ _. after

abbrev pub raise_if : Bool → AmountError → Amount (Unit {0})
raise_if true e = refused e
raise_if false e = valued tt

abbrev pub or_invalid : {A : Type 0} → Option A → Amount A
or_invalid none = refused invalid_operation
or_invalid (some a) = valued a

-- `money` and `quantity` of a decimal.
unfoldable pub money : Decimal → Amount ℤ
money value = or_invalid (quantize 2 value)

unfoldable pub quantity : Decimal → Amount ℤ
quantity value = or_invalid (quantize 3 value)

-- `money` of an amount that is a whole number of cents already.
unfoldable pub money_of_cents : ℕ → Amount ℕ
money_of_cents cents = if ltb cents precision_limit then valued cents else refused invalid_operation

-- `money(quantity * price)`: thousandths by cents, in the context's precision.
unfoldable pub money_of_product : ℕ → ℕ → Amount ℕ
unfolding money_of_cents
money_of_product thousandths cents =
    money_of_cents (round_half_up (context_round (thousandths * cents)) 1000)

pub record LineAmounts : Type 0 where
  pub quantity : ℕ  -- thousandths
  pub unit_price : ℕ  -- cents, as those below
  pub gross_total : ℕ
  pub discount_amount : ℕ
  pub surcharge_amount : ℕ
  pub total : ℕ

-- `value <= 0` raises.
abbrev pub positive : ℤ → Amount ℕ
positive (pos zero) = refused quantity_not_positive
positive (pos (suc n)) = valued (suc n)
positive (negsuc n) = refused quantity_not_positive

-- `value < 0` raises.
abbrev pub non_negative : ℤ → Amount ℕ
non_negative (pos n) = valued n
non_negative (negsuc n) = refused negative_amount

-- The checks on normalized amounts, and the line.
unfoldable pub line_of : ℤ → ℤ → ℤ → ℤ → Amount LineAmounts
line_of item_quantity unit_price discount surcharge = do
  q ← positive item_quantity
  p ← non_negative unit_price
  d ← non_negative discount
  s ← non_negative surcharge
  gross ← money_of_product q p
  raise_if (ltb gross d) discount_above_gross
  total ← money_of_cents (gross - d + s)
  valued (record {
    quantity = q;
    unit_price = p;
    gross_total = gross;
    discount_amount = d;
    surcharge_amount = s;
    total = total;
  })

unfoldable pub calculate_line : Decimal → Decimal → Decimal → Decimal → Amount LineAmounts
unfolding quantity money
calculate_line item_quantity unit_price discount_amount surcharge_amount = do
  q ← quantity item_quantity
  p ← money unit_price
  d ← money discount_amount
  s ← money surcharge_amount
  line_of q p d s

-- The three columns of an item that the order adds up.
pub record ItemAmounts : Type 0 where
  pub gross_total : ℕ
  pub discount_amount : ℕ
  pub surcharge_amount : ℕ

pub record OrderAmounts : Type 0 where
  pub subtotal : ℕ
  pub discount_total : ℕ
  pub surcharge_total : ℕ
  pub total : ℤ

-- `money` of a difference of cents, which may be negative.
unfoldable pub money_of_signed : ℤ → Amount ℤ
money_of_signed (pos n) =
    if ltb n precision_limit then valued (pos n) else refused invalid_operation
money_of_signed (negsuc n) =
    if ltb (suc n) precision_limit then valued (negsuc n) else refused invalid_operation

unfoldable pub calculate_order : List ItemAmounts → Amount OrderAmounts
unfolding money_of_cents money_of_signed
calculate_order items = do
  subtotal ← money_of_cents (sum_of (λ i. i.gross_total) items)
  discount_total ← money_of_cents (sum_of (λ i. i.discount_amount) items)
  surcharge_total ← money_of_cents (sum_of (λ i. i.surcharge_amount) items)
  total ← money_of_signed (sub_ℕ (subtotal + surcharge_total) discount_total)
  valued (record {
    subtotal = subtotal;
    discount_total = discount_total;
    surcharge_total = surcharge_total;
    total = total;
  })
