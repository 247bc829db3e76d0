-- ===== src/Activity.antt =====
-- src/activity.rs: the physical inputs that are watched for activity and forwarded.
pub mod Watch
pub mod Monitor
pub mod Followed
pub mod Safe
