-- ===== src/Scan.antt =====
-- core/src/scan: the audit of a machine against a catalog.
pub mod View
pub mod Model
pub mod Judge
pub mod Environment
pub mod Image
pub mod State
pub mod Targets
pub mod Registered
pub mod Grounded
pub mod Read
pub mod Audit
pub mod Libraries
