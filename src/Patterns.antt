-- ===== src/Patterns.antt =====
-- modules/runtime-learning-engine/pattern-detector.ts and the clustering of utils.ts.
pub mod Defs
pub mod Clusters
pub mod Detection
