-- ===== src/Agent/Daemon.antt =====
-- agent/internal/daemon: the agent's core. The children model one file each.
pub mod State
pub mod Apps
pub mod Attribution
pub mod Stops
pub mod Restart
pub mod Sync
pub mod Poll
pub mod Buffers
pub mod Boot
pub mod Step
pub mod Consent
pub mod Greeting
pub mod Gate
pub mod Crashes
pub mod Timers
mod Tests
