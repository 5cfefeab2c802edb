-- ===== src/GroupCall.antt =====
-- The group call sessions of groupws/hub.go: their state, every operation of the hub on them, and
-- what holds after any sequence of operations.
pub mod Session
pub mod Create
pub mod Join
pub mod Leave
pub mod Media
pub mod Cleanup
pub mod Machine
pub mod Trace
pub mod Dropping
pub mod Membership
pub mod Creation
pub mod Ending
pub mod Succession
pub mod Signals
pub mod Expiry
mod Tests
pub mod Invariant
