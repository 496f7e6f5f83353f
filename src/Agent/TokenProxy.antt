-- ===== src/Agent/TokenProxy.antt =====
-- agent/internal/tokenproxy: the metering proxy and what it reads from a provider's responses.
pub mod Rows
pub mod Sse
pub mod Chunks
pub mod Proxy
