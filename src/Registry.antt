-- ===== src/Registry.antt =====
-- internal/definition/registry.go: the durable registry of tailapp definitions.
pub mod Tables
pub mod Digest
pub mod Ledger
pub mod Drafts
pub mod Activation
mod Once
mod Replays
mod Rows
mod Consistent
mod Changes
mod Reach
mod Stored
mod Finished
mod Preimage
mod Tests
