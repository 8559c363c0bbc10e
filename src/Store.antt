-- ===== src/Store.antt =====
-- modules/runtime-learning-engine/bug-store.ts: the bounded history of bugs and its file.
pub mod Defs
pub mod Buffer
pub mod Reload
