-- ===== src/Fixer.antt =====
-- modules/runtime-learning-engine/auto-fixer.ts: fixes that hook Java methods and are taken back.
pub mod Values
pub mod Hooks
pub mod Methods
pub mod Restore
pub mod Faults
pub mod Restored
