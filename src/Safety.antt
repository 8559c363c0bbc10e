-- ===== src/Safety.antt =====
-- The safety modules: memory pressure, corruption of files, the mesh that observes them, and its gate.
pub mod Memory
pub mod Corruption
pub mod Report
pub mod Mesh
pub mod Gate
