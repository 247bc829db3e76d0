-- ===== src/Control.antt =====
-- src/control.rs: the control socket's requests and what two devices tell each other on layouts.
pub mod Layout
