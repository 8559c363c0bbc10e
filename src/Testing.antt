-- ===== src/Testing.antt =====
-- The tests that run after a fix, test-suite.ts.
pub mod Defs
pub mod Bytes
