-- ===== src/Metrics.antt =====
-- src/common/metrics: the metrics kept in shared memory.
pub mod Histogram
pub mod Store
