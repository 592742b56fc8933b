-- ===== src/Paths.antt =====
-- core/src/safety/paths.rs: canonical paths and registry keys. The definitions are in `Canonical`
-- and `RegKey`, the proofs in the other children.
pub mod Canonical
pub mod RegKey
pub mod Root
pub mod WellFormed
