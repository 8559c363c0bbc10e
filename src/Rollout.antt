-- ===== src/Rollout.antt =====
-- modules/runtime-learning-engine/rollout-manager.ts: `RolloutManager`.
pub mod Defs
pub mod Stages
pub mod Saved
