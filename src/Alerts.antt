-- ===== src/Alerts.antt =====
-- The alerts: the rules of the service levels, and the manager of alerts.
pub mod Rules
pub mod Defaults
pub mod Manager
pub mod Standard
pub mod Debounce
pub mod Missed
