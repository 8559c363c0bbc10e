-- ===== src/Versions.antt =====
-- The versions of the engine and their changelog, versioning.ts.
pub mod Defs
pub mod Changelog
