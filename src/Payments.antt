-- ===== src/Payments.antt =====
-- packages/plugin-payments/src.
pub mod Store
pub mod Race
pub mod Registry
pub mod Abacate
pub mod Stripe
pub mod Currency
pub mod Delivery
pub mod Plugin
mod Tests
mod GatewayTests
mod StripeTests
