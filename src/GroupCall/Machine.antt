-- ===== src/GroupCall/Machine.antt =====
-- The hub as a state machine: one command for each operation of groupws/hub.go on the sessions.
-- The id that `utils.GenerateUUID` returns and the time come with the command. CreateGroupCall
-- takes its lock twice, so `create` is the store under the second lock, with the hub that was seen
-- under the first: any commands may have come between.
use link_up_server.Base.{ℕ, ◌≡◌, Bool, false, none, [], lookup}
use link_up_server.GroupCall.Session.{Hub}
use link_up_server.GroupCall.Create.{CreateRequest, chat_has_session, prepare_call, store_call}
use link_up_server.GroupCall.Join.{
  request_join_call, approve_join_call, reject_join_call, mark_disconnected,
}
use link_up_server.GroupCall.Leave.{end_call_by_user}
use link_up_server.GroupCall.Media.{
  relay_signal_targets, set_participant_muted, set_participant_video,
}
use link_up_server.GroupCall.Cleanup.{cleanup_stale_calls}

pub data Command : Type 0 where
  create : ℕ → CreateRequest → Hub → Command
  request_join : ℕ → ℕ → Command
  approve_join : ℕ → ℕ → ℕ → Command
  reject_join : ℕ → ℕ → ℕ → Command
  end_call : ℕ → ℕ → Command
  relay_signal : ℕ → ℕ → ℕ → Command
  set_muted : ℕ → ℕ → ℕ → Bool → Bool → Command
  set_video : ℕ → ℕ → Bool → Command
  mark : ℕ → ℕ → Command
  cleanup : Command

unfoldable pub step : ℕ → Command → Hub → Hub
step now (create uuid r seen) h = store_call (prepare_call uuid now r seen) h
step now (request_join user call) h = (request_join_call user call now h).1
step now (approve_join creator user call) h = (approve_join_call creator user call now h).1
step now (reject_join creator user call) h = (reject_join_call creator user call h).1
step now (end_call user call) h = (end_call_by_user user call now h).1
step now (relay_signal call sender target) h = (relay_signal_targets call sender target now h).1
step now (set_muted call actor target muted by_creator) h =
    (set_participant_muted call actor target muted by_creator now h).1
step now (set_video call user enabled) h = (set_participant_video call user enabled now h).1
step now (mark call user) h = (mark_disconnected call user now h).1
step now cleanup h = (cleanup_stale_calls now h).0

-- A new call gets an id that no call in the map has.
abbrev pub IsFresh : Command → Hub → Type 0
IsFresh (create uuid r seen) h = lookup uuid h.group_calls ≡ none
IsFresh _ h = Unit

-- A chat that was free when the creation looked is still free: no other creation in this chat came
-- between its two locks.
abbrev pub StaysFree : Command → Hub → Type 0
StaysFree (create uuid r seen) h =
    chat_has_session r.chat_id seen.group_calls ≡ false
    → chat_has_session r.chat_id h.group_calls ≡ false
StaysFree _ h = Unit

-- NewHub
abbrev pub new_hub : Bool → Bool → Bool → Hub
new_hub chat_hub messages store = record {
  group_calls = [];
  has_group_chat_hub = chat_hub;
  has_message_service = messages;
  has_call_store = store;
}

pub data Reach (h : Hub) : Hub → Type 0 where
  here : Reach h h
  next :
      {k : Hub}
      → (now : ℕ) (c : Command) → Reach h k
      → IsFresh c k
      → StaysFree c k
      → Reach h (step now c k)
