-- ===== src/Integrity.antt =====
-- The checks of the files of the storage, integrity-verifier.ts.
pub mod Defs
pub mod Reports
