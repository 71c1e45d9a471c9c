-- ===== src/Persistence.antt =====
-- The store of one collection and the registry of runs (src/adapt/persistence).
pub mod Rows
pub mod Catalog
pub mod Objects
pub mod Registry
