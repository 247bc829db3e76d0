-- ===== src/Touchpad.antt =====
-- src/touchpad.rs, part by part.
pub mod Event
pub mod Descriptor
pub mod Clock
pub mod State
pub mod Handoff
pub mod Virtual
pub mod Physical
pub mod Capture
pub mod Router
pub mod Restore
