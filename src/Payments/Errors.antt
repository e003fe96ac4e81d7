-- ===== src/Payments/Errors.antt =====
-- apps/payments/exceptions.py, with the exceptions that pass through the services.
use vidalys_flow.Transaction.{Service}
use vidalys_flow.Database.{Database}

-- What an adapter of a provider, or the transport below it, raises.
pub data ProviderFault : Type 0 where
  timed_out transport_failed other_fault : ProviderFault

pub data PaymentError : Type 0 where
  invalid_payment payment_permission_denied organization_mismatch : PaymentError
  idempotency_conflict version_conflict : PaymentError
  external_effects_blocked : PaymentError
  integrity_error does_not_exist multiple_objects_returned : PaymentError
  faulted : ProviderFault → PaymentError

abbrev pub PaymentService : Type 0 → Type 0
PaymentService = Service Database PaymentError
