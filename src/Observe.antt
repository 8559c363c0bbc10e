-- ===== src/Observe.antt =====
-- What the engine tells the health endpoint, the metrics and the alerts, index.ts.
pub mod Defs
pub mod Failsafe
