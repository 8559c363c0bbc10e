-- ===== src/Canary.antt =====
-- modules/runtime-learning-engine/canary-deployment-orchestrator.ts.
pub mod Defs
pub mod Trace
