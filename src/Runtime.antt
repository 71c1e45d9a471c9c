-- ===== src/Runtime.antt =====
-- The run-time loop over acquired scans (src/adapt/runtime).
pub mod Setup
pub mod Processor
