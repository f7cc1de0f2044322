-- ===== src/Startup.antt =====
-- How the services start: their arguments and their layered configuration.
pub mod Args
pub mod Layers
