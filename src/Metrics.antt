-- ===== src/Metrics.antt =====
-- internal/metrics/metrics.go: the resident's cumulative measurements.
pub mod Histogram
pub mod Requests
mod Cumulative
mod Totals
mod Control
pub mod Processing
pub mod Intake
mod Labels
mod Attempts
mod Tests
