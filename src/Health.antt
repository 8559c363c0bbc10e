-- ===== src/Health.antt =====
-- The health of the engine, health-check-endpoint.ts.
pub mod Defs
pub mod Status
pub mod Limits
