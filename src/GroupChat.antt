-- ===== src/GroupChat.antt =====
-- Group chats: services/group_chat.service.go, repository/group_chat.repository.go,
-- validations/group_chat.validation.go and their models.
pub mod Tables
pub mod Service
pub mod Requests
pub mod Roles
pub mod Machine
pub mod Changes
pub mod Valid
pub mod Members
pub mod Leaders
pub mod Races
pub mod Mutes
mod Tests
