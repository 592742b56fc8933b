-- ===== src/Catalog.antt =====
-- core/src/catalog: the catalog's data model, the expansion of its path templates, and its integrity
-- checks.
pub mod Schema
pub mod Expand
pub mod Problems
pub mod Validate
pub mod Refs
pub mod Gate
pub mod Shared
