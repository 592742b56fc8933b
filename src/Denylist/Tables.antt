-- ===== src/Denylist/Tables.antt =====
-- core/src/safety/denylist.rs: the compiled-in tables.
pub mod Paths
pub mod Inbox
pub mod Keys
