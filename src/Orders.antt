-- ===== src/Orders.antt =====
-- The orders application: apps/orders.
pub mod Calculations
pub mod Tables
pub mod Transitions
pub mod Snapshots
pub mod Numbering
pub mod Errors
pub mod Services
