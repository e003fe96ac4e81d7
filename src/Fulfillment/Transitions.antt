-- ===== src/Fulfillment/Transitions.antt =====
-- apps/fulfillment/transitions.py.
use vidalys_flow.Common.{Bool, true, false, ◌&&◌}
use vidalys_flow.Transaction.{unless}
use vidalys_flow.Fulfillment.Tables.{
  Method, delivery, pickup, Status, draft, preparing, ready, in_transit, completed, cancelled,
}
use vidalys_flow.Fulfillment.Errors.{FulfillmentService, invalid_transition}

-- `target_status in ALLOWED_TRANSITIONS.get(fulfillment.status, set())`
abbrev pub allowed : Status → Status → Bool
allowed draft preparing = true
allowed draft cancelled = true
allowed preparing ready = true
allowed preparing cancelled = true
allowed ready in_transit = true
allowed ready completed = true
allowed ready cancelled = true
allowed in_transit completed = true
allowed in_transit cancelled = true
allowed _ _ = false

-- What the method forbids: a pickup in transit, and a delivery that is completed before it is
-- dispatched.
abbrev pub fits_method : Method → Status → Status → Bool
fits_method pickup _ in_transit = false
fits_method delivery ready completed = false
fits_method _ _ _ = true

abbrev pub may_move : Method → Status → Status → Bool
may_move method status target = allowed status target && fits_method method status target

abbrev pub ensure_transition : Method → Status → Status → FulfillmentService (Unit {0})
ensure_transition method status target = unless (may_move method status target) invalid_transition
