-- ===== src/Projection.antt =====
-- internal/projection/projection.go: one tailapp's private database, its frontier, and the
-- interpretation of deliveries.
pub mod Types
pub mod Host
pub mod Evaluation
pub mod Process
pub mod Atomic
pub mod Replay
mod Again
pub mod Compatible
pub mod Schema
pub mod Continue
mod Executed
mod JsonStorage
mod Kept
mod Continued
mod Tests
