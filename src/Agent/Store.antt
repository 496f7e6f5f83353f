-- ===== src/Agent/Store.antt =====
-- agent/internal/appconfig/store.go: the files of the agent's state directory.
pub mod State
pub mod Spool
mod Tests
