-- ===== src/Bridge.antt =====
-- src/bridge.rs: the coordinator of a device.
pub mod Edges
pub mod Layout
pub mod Active
pub mod Role
pub mod Coordinator
pub mod Agreed
pub mod Service
