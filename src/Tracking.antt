-- ===== src/Tracking.antt =====
-- The tracker of storm cells (src/adapt/modules/tracking).
pub mod Lut
pub mod Assignment
pub mod Identity
pub mod Models
pub mod Graph
pub mod Geometry
pub mod Env
pub mod Events
pub mod Hungarian
pub mod Tracker
pub mod Candidates
pub mod Frame
pub mod Track
pub mod History
