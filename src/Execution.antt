-- ===== src/Execution.antt =====
-- src/adapt/execution: the modules' interface, the graph that the builder makes of them, the
-- executor that runs it, and the registry of module classes.
pub mod Node
pub mod Builder
pub mod Executor
pub mod Registry
pub mod Pipeline
