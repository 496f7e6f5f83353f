-- ===== src/Hub/Metrics.antt =====
-- hub/internal/metrics: the life of the time series.
pub mod Downsample
pub mod Rollup
