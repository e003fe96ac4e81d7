-- ===== src/Tests.antt =====
-- Witnesses and runs at concrete inputs.
mod CustomerTests
mod CalculationTests
mod OrderTests
mod EffectTests
mod OutboxTests
mod FulfillmentTests
mod PaymentTests
mod ProviderTests
mod OrganizationTests
pub mod Shop
pub mod Till
