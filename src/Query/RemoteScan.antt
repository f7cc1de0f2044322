-- ===== src/Query/RemoteScan.antt =====
-- crates/elan-query/src/planner/remote_scan.rs
pub mod Endpoint
pub mod Sql
pub mod Execute
