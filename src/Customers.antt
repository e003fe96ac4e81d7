-- ===== src/Customers.antt =====
-- The customers application: apps/customers.
pub mod Normalization
