-- ===== src/Jsonataddl.antt =====
-- The package jsonataddl: the core that compiles and evaluates applications.
pub mod Types
pub mod Values
pub mod Depth
pub mod Names
pub mod Contract
pub mod Input
pub mod Output
pub mod Views
pub mod Topology
pub mod Authorizer
pub mod Ddl
pub mod Evaluate
mod Statements
mod Storage
mod Nesting
mod Conforms
mod Declared
mod Received
mod Proper
mod Permitted
mod Evaluated
mod Resolved
mod Backing
mod Found
mod Lookups
mod Owners
mod Claimed
mod Visible
mod Governed
mod Allowlist
mod Authorized
mod Denied
mod Tests
