-- ===== src/VoiceCall.antt =====
-- One-to-one calls: models/call.model.go, repository/call.repository.go and
-- services/voice_call.service.go, and what holds of the calls table.
pub mod Call
pub mod Table
pub mod Service
pub mod Row
pub mod Machine
pub mod Writes
pub mod Rows
pub mod Invariant
pub mod Answers
pub mod Busy
pub mod Races
pub mod Missed
pub mod Texts
mod Tests
