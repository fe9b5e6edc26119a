-- ===== src/Engine.antt =====
-- internal/engine/engine.go: the engine that joins the queue and the projections.
pub mod Accept
pub mod Drain
mod Recent
mod Progress
mod Waves
mod Flat
mod Moves
mod Ended
mod Routed
mod Tests
