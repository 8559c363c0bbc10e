-- ===== src/Disk.antt =====
-- modules/runtime-learning-engine/disk-exhaustion-handler.ts: `DiskExhaustionHandler`.
pub mod Defs
pub mod Eviction
pub mod Order
