-- ===== src/Agent/TokenWatch.antt =====
-- agent/internal/tokenwatch: the rows that the agent harvests from the transcripts of coding tools.
pub mod Codex
pub mod Totals
pub mod Claude
pub mod Watcher
mod Tests
