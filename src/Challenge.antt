-- ===== src/Challenge.antt =====
-- Challenges of communities: the part of services/contribution.service.go and
-- repository/contribution.repository.go that counts posts for a challenge.
pub mod Tables
pub mod Service
pub mod Machine
pub mod Sums
pub mod Valid
pub mod Joining
pub mod Posting
pub mod Reached
mod Tests
