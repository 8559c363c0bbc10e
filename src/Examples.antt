-- ===== src/Examples.antt =====
-- Concrete runs: each property at an input where its conditions hold.
mod Data
mod Hooks
mod Memory
mod Storage
mod Patterns
mod Runtime
mod Deployment
mod Disk
mod Safety
mod Alerts
mod Captures
mod Testing
mod Releases
mod Startup
mod Health
mod Observe
mod Provenance
mod Receipts
mod Feedback
