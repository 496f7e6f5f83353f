-- ===== src/Agent.antt =====
-- The agent: the program that runs on each host (agent/).
pub mod Daemon
pub mod Docker
pub mod LogStream
pub mod Store
pub mod Supervisor
pub mod Transport
pub mod TokenProxy
pub mod TokenWatch
mod Tests
