-- ===== src/Payments.antt =====
-- The payments of confirmed orders, apps/payments.
pub mod Tables
pub mod Errors
pub mod Providers
pub mod Resolution
pub mod Services
pub mod Tasks
pub mod Soundness
pub mod Steps
