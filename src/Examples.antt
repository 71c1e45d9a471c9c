-- ===== src/Examples.antt =====
-- Tests of the definitions at concrete inputs, and the theorems at inputs that meet their hypotheses.
mod Integers
mod Assignment
mod Execution
mod Targets
mod Tracking
mod Persistence
mod Acquisition
mod Runtime
mod Registry
mod Lut
mod Pipeline
