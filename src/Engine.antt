-- ===== src/Engine.antt =====
-- modules/runtime-learning-engine/index.ts: `RuntimeLearningEngine`.
pub mod Defs
pub mod Lifecycle
pub mod Verdict
pub mod Settled
pub mod Gate
pub mod Invariant
pub mod Pending
