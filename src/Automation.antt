-- ===== src/Automation.antt =====
-- The automatic rollback of a deployment, rollback-automation.ts.
pub mod Defs
pub mod Statistics
