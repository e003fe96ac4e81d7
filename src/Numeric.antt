-- ===== src/Numeric.antt =====
-- Python's `decimal` arithmetic as the services use it: finite decimals, `quantize` with
-- ROUND_HALF_UP, and a product in the default context of 28 digits. A quantized amount is kept as
-- a scaled integer: cents for money, thousandths for quantities.
pub mod Int
pub mod Rounding
pub use Int.{ℤ, pos, negsuc, pos_part, neg_part, sub_ℕ}
use vidalys_flow.Common.{
  ℕ, zero, suc, ◌+◌, ◌-◌, ◌*◌, ◌/◌, ◌%◌, ◌^◌, Bool, true, false, ◌&&◌, Option, none, some, ltb, leb,
  ◌==◌, if◌then◌else◌,
}

-- A finite decimal: (-1)^negative * coefficient / 10^places.
pub record Decimal : Type 0 where
  pub negative : Bool
  pub coefficient : ℕ
  pub places : ℕ

-- The first number of 29 digits: the context holds 28.
abbrev pub precision_limit : ℕ
precision_limit = 10 ^ 28

-- n / d, a tie going up.
unfoldable pub round_half_up : ℕ → ℕ → ℕ
round_half_up n d = (2 * n + d) / (2 * d)

-- n / d, a tie going to the even quotient: the context's own rounding.
unfoldable pub round_half_even : ℕ → ℕ → ℕ
round_half_even n d =
    let q = n / d in
    let r = n % d in
    if ltb (2 * r) d then q else if ltb d (2 * r) then q + 1 else if q % 2 == 0 then q else q + 1

-- The power of ten that leaves 28 digits of a longer coefficient.
unfoldable pub excess : ℕ → ℕ → ℕ
excess zero n = 1
excess (suc fuel) n =
    let rest = 10 * excess fuel (n / 10) in if ltb n precision_limit then 1 else rest

-- A result of the context, at the scale of the exact one: 28 digits are kept.
unfoldable pub context_round : ℕ → ℕ
unfolding excess round_half_even
context_round n = elim (ltb n precision_limit) [
  | true ↦ n
  | false ↦ round_half_even n (excess 28 n) * excess 28 n
]

-- The magnitude of `quantize` to so many places; `none` is InvalidOperation.
unfoldable pub quantize_magnitude : ℕ → ℕ → ℕ → Option ℕ
unfolding round_half_up
quantize_magnitude target coefficient places =
    let q =
      (if leb places target
        then coefficient * 10 ^ (target - places)
        else round_half_up coefficient (10 ^ (places - target))) in
    if ltb q precision_limit then some q else none

abbrev pub signed : Bool → ℕ → ℤ
signed true zero = pos 0
signed true (suc n) = negsuc n
signed false n = pos n

-- `Decimal.quantize`, as an integer of the target unit.
unfoldable pub quantize : ℕ → Decimal → Option ℤ
unfolding quantize_magnitude
quantize target d = elim (quantize_magnitude target d.coefficient d.places) [
  | none ↦ none
  | some q ↦ some (signed d.negative q)
]
