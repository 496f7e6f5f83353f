-- ===== src/Hub.antt =====
-- hub: the server side.
pub mod State
pub mod Registry
pub mod Apps
pub mod Commands
pub mod Enroll
pub mod Logs
pub mod Notify
pub mod Signature
pub mod Tokens
pub mod Metrics
pub mod Session
mod Tests
