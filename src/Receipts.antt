-- ===== src/Receipts.antt =====
-- The receipts of actions, receipt-generator.ts.
pub mod Defs
pub mod Verification
