-- ===== src/Inbox.antt =====
-- internal/inbox/inbox.go: the bounded durable delivery queue. Each method is a function on the
-- queue, one transaction: an error leaves the tables as they were.
pub mod Tables
pub mod Enqueue
pub mod Settle
pub mod Pending
pub mod WellFormed
pub mod Outstanding
pub mod Settled
pub mod Admitted
pub mod Batch
pub mod Enqueued
pub mod Accepts
pub mod Fifo
pub mod Refinement
pub mod Reach
mod Tests
