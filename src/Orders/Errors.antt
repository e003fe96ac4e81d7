-- ===== src/Orders/Errors.antt =====
-- apps/orders/exceptions.py, with what the calculations and the database itself raise.
use vidalys_flow.Transaction.{Service}
use vidalys_flow.Idempotency.{Conflict}
use vidalys_flow.Orders.Calculations.{AmountError}
use vidalys_flow.Database.{Database}

pub data OrderError : Type 0 where
  order_permission_denied : OrderError
  organization_mismatch : OrderError
  order_not_editable : OrderError
  version_conflict : OrderError
  idempotency_conflict : Conflict → OrderError
  result_missing : OrderError
  invalid_item : OrderError
  invalid_transition : OrderError
  confirmation_blocked : OrderError
  reason_required : OrderError
  amount_error : AmountError → OrderError
  integrity_error : OrderError

-- A service of the orders application.
abbrev pub OrderService : Type 0 → Type 0
OrderService = Service Database OrderError
