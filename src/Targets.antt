-- ===== src/Targets.antt =====
-- The target selection engine (src/adapt/consumers/target_selection).
pub mod Models
pub mod Rules
pub mod Engine
