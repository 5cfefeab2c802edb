-- ===== src/Friendship.antt =====
-- Friend requests: models/friend.model.go, validations/friend.validation.go,
-- repository/friend.repository.go and services/friend.service.go.
pub mod Table
pub mod Service
pub mod Queries
pub mod Invariant
pub mod Steps
pub mod Consent
pub mod Pairs
mod Tests
