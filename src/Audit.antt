-- ===== src/Audit.antt =====
-- crates/elan-audit: the audit events and where they go.
pub mod Relayed
pub mod Event
pub mod Sink
