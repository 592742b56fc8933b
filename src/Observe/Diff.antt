-- ===== src/Observe/Diff.antt =====
-- tools/observe/src/diff.rs: comparing two snapshots.
pub mod Types
pub mod Filter
pub mod Services
pub mod Files
pub mod Registry
pub mod Compare
pub mod Reversed
pub mod Refilter
pub mod Summary
