-- ===== src/Numeric/Rounding.antt =====
-- The error of rounding, and when the context's rounding does nothing.
use vidalys_flow.Common.{ℕ, ◌+◌, ◌*◌, ◌≤◌, ◌<◌, ◌≡◌, refl, arith, lt→ltb}
use native.Mathlib.Nat.{div-mul-le_self, lt-div-mul-add}
use vidalys_flow.Numeric.{precision_limit, round_half_up, context_round}

-- The rounded quotient is the nearest one: it is off by at most half a unit, and a tie went up.
pub round_half_up_nearest :
    (n d : ℕ)
    → 0 < d
    → (2 * (round_half_up n d * d) ≤ 2 * n + d) × (2 * n < 2 * (round_half_up n d * d) + d)
unfolding round_half_up
round_half_up_nearest n d h =
    grind (arith, div-mul-le_self (2 * n + d) (2 * d), lt-div-mul-add {a = 2 * n + d} {b = 2 * d})

-- A number that the unit divides is not changed.
pub round_half_up_exact : (q d : ℕ) → 0 < d → round_half_up (q * d) d ≡ q
unfolding round_half_up
round_half_up_exact q d h = grind arith

pub context_round_short : (n : ℕ) → n < precision_limit → context_round n ≡ n
unfolding context_round
context_round_short n h = rw (lt→ltb n precision_limit h, context_round) refl
