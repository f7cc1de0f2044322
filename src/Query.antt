-- ===== src/Query.antt =====
-- crates/elan-query: the SQL gateway.
pub mod OptimizerRule
pub mod RemoteScan
pub mod Catalog
pub mod Session
pub mod Http
pub mod Main
