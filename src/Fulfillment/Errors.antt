-- ===== src/Fulfillment/Errors.antt =====
-- apps/fulfillment/exceptions.py.
use vidalys_flow.Transaction.{Service}
use vidalys_flow.Database.{Database}

pub data FulfillmentError : Type 0 where
  fulfillment_permission_denied organization_mismatch invalid_fulfillment : FulfillmentError
  invalid_transition version_conflict idempotency_conflict reason_required : FulfillmentError
  integrity_error : FulfillmentError

abbrev pub FulfillmentService : Type 0 → Type 0
FulfillmentService = Service Database FulfillmentError
