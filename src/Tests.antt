-- ===== src/Tests.antt =====
-- Concrete runs of the components, on a backend that runs out, and over whole numbers in place of
-- floating-point ones.
mod Backend
mod Inputs
mod Session
mod Wire
mod Touch
mod Sender
mod Screens
mod Bridge
mod Settings
mod Pointing
mod Router
mod Activity
mod Pairing
mod Service
mod Restore
