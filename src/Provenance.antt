-- ===== src/Provenance.antt =====
-- The provenance of fixes, provenance-tracker.ts.
pub mod Defs
pub mod Linked
