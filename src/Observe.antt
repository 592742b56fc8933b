-- ===== src/Observe.antt =====
-- tools/observe: what an installer changed on a machine.
pub mod Index
pub mod Model
pub mod Coverage
pub mod Policy
pub mod Diff
