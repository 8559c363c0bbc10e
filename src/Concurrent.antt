-- ===== src/Concurrent.antt =====
-- Concurrent captures of bugs, concurrent-bug-capture.ts.
pub mod Defs
pub mod Apart
pub mod Race
