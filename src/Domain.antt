-- ===== src/Domain.antt =====
-- crates/elan-common: the types that the services share.
pub mod Arrow
pub mod Catalog
pub mod Errors
pub mod Plan
pub mod Proto
