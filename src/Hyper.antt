-- ===== src/Hyper.antt =====
-- modules/runtime-learning-engine/hypermemory-runtime.ts: a bounded ring of records in memory,
-- with checkpoints on disk.
pub mod Defs
pub mod Ring
pub mod Recovery
