-- ===== src/Platform.antt =====
-- The outbox and the audit trail, apps/platform and apps/audit.
pub mod Tables
pub mod Outbox
