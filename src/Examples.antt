-- ===== src/Examples.antt =====
-- Concrete inputs at which the theorems apply, and tests.
mod Codecs
mod Iam
mod Central
mod Query
mod QuerySession
mod Batches
mod Sessions
mod Executor
mod ExecutorMain
mod Audit
mod Tui
mod Catalog
mod Search
mod Registration
mod Served
mod Processes
mod Startup
mod Screen
mod Servers
