-- ===== src/Compat.antt =====
-- The compatibility check before a start, compatibility-checker.ts.
pub mod Defs
pub mod Startup
pub mod Limits
