-- ===== src/Bridge/Coordinator/Keeps.antt =====
-- src/bridge.rs, `coordinate_with_control`: every branch of the loop keeps the invariant.
pub mod Round
pub mod Tick
pub mod Commands
pub mod Captured
pub mod Layouts
pub mod Locks
pub mod Begins
pub mod Inputs
pub mod Ends
pub mod Frames
pub mod Loop
