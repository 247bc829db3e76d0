-- ===== src/Input.antt =====
-- src/input.rs: the physical keyboards of this machine, and one machine's control state.
pub mod Control
pub mod Keys
