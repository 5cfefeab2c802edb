-- ===== src/GroupCall/Invariant.antt =====
-- The well-formedness of a group call session, and its preservation by each operation.
pub mod Session
pub mod Join
pub mod Leave
pub mod Cleanup
pub mod Hub
pub mod Create
pub mod Sweep
pub mod Machine
