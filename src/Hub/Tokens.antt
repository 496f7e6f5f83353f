-- ===== src/Hub/Tokens.antt =====
-- hub/internal/tokens: what the hub makes of the usage rows that agents report.
pub mod Pricing
pub mod Ingest
pub mod Dedup
pub mod Spend
pub mod Alerts
pub mod Prefixes
