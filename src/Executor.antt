-- ===== src/Executor.antt =====
-- crates/elan-executor: SQL over the tables of one site, answered as Arrow IPC bytes.
pub mod Config
pub mod SqlService
pub mod Main
