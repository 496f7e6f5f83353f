-- ===== src/Agent/LogStream.antt =====
-- agent/internal/daemon/logstream.go: the log streams that the agent serves.
pub mod Tail
pub mod Registry
mod Tests
