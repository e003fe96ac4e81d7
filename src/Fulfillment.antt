-- ===== src/Fulfillment.antt =====
-- The fulfillment of confirmed orders, apps/fulfillment.
pub mod Tables
pub mod Errors
pub mod Transitions
pub mod Allocations
pub mod Services
