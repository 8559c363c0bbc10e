-- ===== src/Exporter.antt =====
-- The metrics of the engine, metrics-exporter.ts.
pub mod Defs
pub mod Collector
pub mod Bounds
