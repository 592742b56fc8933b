-- ===== src/Denylist.antt =====
-- core/src/safety/denylist.rs: the deny-list. `Check` and `Keys` are the two evaluations.
pub mod Tables
pub mod Exceptions
pub mod Check
pub mod Keys
pub mod Carveout
pub mod Patterns
pub mod Footprint
pub mod KeyRules
