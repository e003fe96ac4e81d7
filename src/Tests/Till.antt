-- ===== src/Tests/Till.antt =====
-- A shop with an account at a provider, and its payments in the states that the tests start from.
use vidalys_flow.Common.{true, false, none, some, [], ◌∷◌, inl, inr}
use vidalys_flow.Text.{Text, codes}
use vidalys_flow.Numeric.{pos}
use vidalys_flow.Platform.Tables.{OutboxEvent, OutboxStatus}
use vidalys_flow.Database.{Database}
use vidalys_flow.Orders.Tables.{confirmed}
use vidalys_flow.Payments.Tables.{
  ProviderAccount, mercado_pago, awaiting_payment, IntentStatus, active, no_reason, PaymentIntent,
  PaymentAttempt,
}
use vidalys_flow.Payments.Errors.{timed_out}
use vidalys_flow.Payments.Services.{event_name, event_key, cancellation_requested}
use vidalys_flow.Payments.Services.Checkout.{new_attempt, new_intent}
use vidalys_flow.Payments.Providers.{Adapter, ProviderResource, to}
use vidalys_flow.Payments.Resolution.{Decision}
use vidalys_flow.Payments.Steps.{Primitives}
use vidalys_flow.Tests.Shop.{boss, order, shop}

abbrev pub account : ProviderAccount
account = record {
  id = 40;
  organization = 1;
  provider = mercado_pago;
  is_active = true;
  callbacks_enabled = true;
}

abbrev pub primitives : Primitives
primitives = record {
  urlparse = λ t. record { scheme = codes "https"; netloc = t };
  payload_hash = λ r. 7;
  callback_digest = λ n t. n ∷ t;
  event_digest = λ a b. a ∷ b ∷ [];
}

-- The order of the shop is confirmed, and the shop has an account at a provider.
abbrev pub till : Database
till = record shop {
  orders = record (shop.orders) { orders = record order { status = confirmed } ∷ [] };
  payments = record (shop.payments) { accounts = account ∷ [] };
}

-- A payment with a requested checkout.
abbrev pub intent : PaymentIntent
intent = new_intent 50 (record order { status = confirmed }) boss

abbrev pub attempt : PaymentAttempt
attempt = new_attempt 51 intent account (codes "p")

abbrev pub waiting : Database
waiting = record till {
  payments = record (till.payments) { intents = intent ∷ []; attempts = attempt ∷ [] };
}

-- A provider that answers a cancellation with a status.
abbrev pub provider_with : Text → Adapter
provider_with status = record {
  provider = mercado_pago;
  external = false;
  create_checkout = λ r.
      inr (record { external_resource_id = codes "r"; hosted_url = codes "u"; expires_at = none });
  fetch_resource = λ r. inl timed_out;
  cancel_checkout = λ r key. inr (record {
    external_resource_id = r;
    status = status;
    amount_minor = pos 300;
    currency = codes "BRL";
  });
}

-- An active checkout whose cancellation was asked for.
abbrev pub active_attempt : PaymentAttempt
active_attempt = record attempt {
  status = active;
  external_resource_id = codes "r";
  hosted_url = codes "u";
  cancellation_event = some 52;
}

abbrev pub asked_event : OutboxEvent
asked_event = record {
  id = 52;
  organization = 1;
  event_type = event_name cancellation_requested;
  aggregate_type = codes "payment_attempt";
  aggregate = 51;
  payload = record { order = 20; status = codes "awaiting_payment"; version = 2 };
  status = OutboxStatus.pending;
  attempts = 0;
  available_at = 0;
  processed_at = none;
  last_error = [];
  idempotency_key = event_key intent cancellation_requested (codes "c");
}

abbrev pub cancelling : Database
cancelling = record waiting {
  journal = record (waiting.journal) { outbox = asked_event ∷ [] };
  payments = record (waiting.payments) {
    intents = record intent { status = awaiting_payment; version = 2 } ∷ [];
    attempts = active_attempt ∷ [];
  };
}

abbrev pub answer_of_status : Text → ProviderResource
answer_of_status status = record {
  external_resource_id = codes "r";
  status = status;
  amount_minor = pos 300;
  currency = codes "BRL";
}

abbrev pub decision_of : IntentStatus → Decision
decision_of status = record { target = to status; reason = no_reason }
