-- ===== src/Iam.antt =====
-- crates/elan-iam: subjects, policies, the policy engine and the two places that consult it.
pub mod Types
pub mod Engine
pub mod CatalogFilter
pub mod Optimizer
