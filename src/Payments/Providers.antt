-- ===== src/Payments/Providers.antt =====
-- apps/payments/providers.py: what the adapters exchange, and the reading of a provider's status.
use vidalys_flow.Common.{ℕ, Bool, Option, none, some, ◌⊎◌, if◌then◌else◌}
use vidalys_flow.Text.{Text, codes, text_eq}
use vidalys_flow.Numeric.{ℤ}
use vidalys_flow.Payments.Tables.{
  Provider, mercado_pago, pagarme, IntentStatus, awaiting_payment, processing, paid, cancelled,
  expired, requires_attention, PaymentIntent,
}
use vidalys_flow.Payments.Errors.{ProviderFault}

pub record CheckoutRequest : Type 0 where
  pub reference : ℕ
  pub amount_minor : ℕ
  pub currency : Text
  pub idempotency_key : Text

-- `urlparse(hosted_url)` is what the adapter's URL is read by: its scheme and whether it names a
-- host.
pub record CheckoutResult : Type 0 where
  pub external_resource_id : Text
  pub hosted_url : Text
  pub expires_at : Option ℕ

pub record ProviderResource : Type 0 where
  pub external_resource_id : Text
  pub status : Text
  pub amount_minor : ℤ
  pub currency : Text

-- A status that a provider's status is read as: one of an intent, or "failed".
pub data Target : Type 0 where
  to : IntentStatus → Target
  to_failed : Target

-- `build_checkout_request`: an amount in cents is one in minor units.
abbrev pub build_checkout_request : PaymentIntent → Text → CheckoutRequest
build_checkout_request intent idempotency_key = record {
  reference = intent.id;
  amount_minor = intent.amount;
  currency = intent.currency;
  idempotency_key = idempotency_key;
}

abbrev pub mercado_pago_status : Text → Option Target
mercado_pago_status status =
    if text_eq status (codes "pending")
    then some (to awaiting_payment)
    else if text_eq status (codes "in_process")
    then some (to processing)
    else if text_eq status (codes "approved")
    then some (to paid)
    else if text_eq status (codes "cancelled")
    then some (to cancelled)
    else if text_eq status (codes "rejected")
    then some to_failed
    else if text_eq status (codes "refunded")
    then some (to requires_attention)
    else if text_eq status (codes "charged_back")
    then some (to requires_attention)
    else none

abbrev pub pagarme_status : Text → Option Target
pagarme_status status =
    if text_eq status (codes "pending")
    then some (to awaiting_payment)
    else if text_eq status (codes "processing")
    then some (to processing)
    else if text_eq status (codes "paid")
    then some (to paid)
    else if text_eq status (codes "canceled")
    then some (to cancelled)
    else if text_eq status (codes "failed")
    then some to_failed
    else if text_eq status (codes "expired")
    then some (to expired)
    else none

-- `none` is a status that the table of the provider does not have.
unfoldable pub map_provider_status : Provider → Text → Option Target
map_provider_status mercado_pago status = mercado_pago_status status
map_provider_status pagarme status = pagarme_status status

-- An adapter, with what it answers or raises.
pub record Adapter : Type 0 where
  pub provider : Provider
  pub external : Bool
  pub create_checkout : CheckoutRequest → ProviderFault ⊎ CheckoutResult
  pub fetch_resource : Text → ProviderFault ⊎ ProviderResource
  pub cancel_checkout : Text → Text → ProviderFault ⊎ ProviderResource
