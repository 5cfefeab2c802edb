-- ===== src/GroupCall/Invariant/Session.antt =====
-- What holds of every session that groupws/hub.go keeps.
use link_up_server.Base.{ℕ, ◌≡◌, ◌≢◌, true, false, Option, none, some, [], ◌∷◌, has, has_key}
use link_up_server.GroupCall.Session.{GroupCallSession}

pub record IsValid (s : GroupCallSession) : Type 0 where
  pub joined_participant : (u : ℕ) → has u s.joined ≡ true → has u s.participants ≡ true
  pub active_joined : (u : ℕ) → has u s.active_participants ≡ true → has u s.joined ≡ true
  pub gone_joined : (u : ℕ) → has_key u s.disconnected_at ≡ true → has u s.joined ≡ true
  pub pending_outside : (u : ℕ) → has_key u s.pending_requests ≡ true → has u s.participants ≡ false
  pub caller_participant : has s.caller_id s.participants ≡ true
  pub occupied : s.joined ≢ []
  -- A session that can still expire has nobody in it but its creator.
  pub lone : s.expires_at ≢ none → s.joined ≡ s.caller_id ∷ []

-- The session that an operation leaves is valid, and is the same call of the same chat.
abbrev pub IsValidAfter : GroupCallSession → Option GroupCallSession → Type 0
IsValidAfter s none = Unit
IsValidAfter s (some s') = IsValid s' × (s'.call_id ≡ s.call_id) × (s'.chat_id ≡ s.chat_id)
