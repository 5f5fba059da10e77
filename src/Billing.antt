-- ===== src/Billing.antt =====
-- The billing worker, billing/src/index.ts.
pub mod Services
pub mod Mas
pub mod Stripe
pub mod Sweep
pub mod Http
pub mod Standing
pub mod Account
pub mod Webhook
pub mod Routes
pub mod Trace
mod Tests
