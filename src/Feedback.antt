-- ===== src/Feedback.antt =====
-- The metrics of fixes and patterns, feedback-collector.ts.
pub mod Defs
pub mod Rates
