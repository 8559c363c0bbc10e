-- ===== src/Rollback.antt =====
-- modules/runtime-learning-engine/rollback-engine.ts: journals of memory and their write-back.
pub mod Defs
pub mod Attempts
pub mod Verified
pub mod Persist
