-- ===== src/Coordinator.antt =====
-- crates/elan-coordinator: the datasets of one site, registered with the central catalog.
pub mod Config
pub mod Dataset
pub mod Registration
pub mod Upload
pub mod Heartbeat
pub mod Main
