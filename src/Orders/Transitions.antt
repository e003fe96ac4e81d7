-- ===== src/Orders/Transitions.antt =====
-- apps/orders/transitions.py.
use vidalys_flow.Common.{Bool, true, false}
use vidalys_flow.Transaction.{unless}
use vidalys_flow.Orders.Tables.{Status, draft, confirmed, cancelled}
use vidalys_flow.Orders.Errors.{OrderService, invalid_transition}

-- `to_status in ALLOWED_TRANSITIONS.get(from_status, set())`
abbrev pub allowed : Status → Status → Bool
allowed draft confirmed = true
allowed draft cancelled = true
allowed confirmed cancelled = true
allowed _ _ = false

abbrev pub ensure_transition : Status → Status → OrderService (Unit {0})
ensure_transition from_status to_status = unless (allowed from_status to_status) invalid_transition
