-- ===== src/Query/Catalog.antt =====
-- crates/elan-query/src/catalog: the tables of a namespace, as one user's session offers them.
pub mod Table
pub mod Provider
pub mod CatalogProvider
