-- ===== src/GroupCall/Session.antt =====
-- groupws/hub.go: the session record, its queries, and the part of `Hub` that keeps sessions.
-- Identifiers are only compared and sorted, so they are numbers, and 0 is the empty string. A time
-- is its number of nanoseconds. The maps of a session are allocated at its creation, and no entry
-- of `groupCalls` is nil, so the guards against nil have no counterpart.
use link_up_server.Base.{
  ℕ, ◌≡◌, refl, ◌⊎◌, inl, inr, Bool, Option, none, some, List, [], ◌∷◌, if◌then◌else◌, leb, Dict,
  lookup, insert, erase, has_key, IdSet, has, length, sort_ids,
}
use link_up_server.Text.{Text}

abbrev pub second : ℕ
second = 1_000_000_000

-- GroupCallSession
pub record GroupCallSession : Type 0 where
  pub call_id : ℕ
  pub chat_id : ℕ
  pub caller_id : ℕ
  pub call_type : Text
  pub participants : IdSet
  pub pending_requests : Dict ℕ
  pub joined : IdSet
  pub active_participants : IdSet
  pub muted : Dict Bool
  pub video_enabled : Dict Bool
  pub disconnected_at : Dict ℕ
  pub created_at : ℕ
  pub last_activity : ℕ
  pub expires_at : Option ℕ
  pub status : Text

-- The error messages of the hub's methods.
pub data CallError : Type 0 where
  only_video : CallError
  chat_has_call : CallError
  not_in_group : ℕ → CallError
  call_not_found : CallError
  only_creator_approves : CallError
  no_pending_request : CallError
  only_creator_rejects : CallError
  not_joined : CallError
  not_participant : CallError
  signal_to_self : CallError
  receiver_not_in_call : CallError
  only_creator_mutes : CallError
  missing_target : CallError
  creator_uses_toggle_mic : CallError
  target_not_participant : CallError

pub data Result (A : Type 0) : Type 0 where
  ok : A → Result A
  err : CallError → Result A

-- The final status that `persistCallEnd` writes.
pub data EndStatus : Type 0 where
  ended cancelled : EndStatus

pub data EndReason : Type 0 where
  timeout disconnected : EndReason

pub data Event : Type 0 where
  join_rejected : ℕ → ℕ → Event
  call_ended : ℕ → EndReason → Event
  left : ℕ → ℕ → Event
  creator_changed : ℕ → ℕ → Event

-- repository.GroupCallDocument, as `CreateGroupCall` fills it
pub record GroupCallDocument : Type 0 where
  pub call_id : ℕ
  pub chat_id : ℕ
  pub caller_id : ℕ
  pub call_type : Text
  pub participants : List ℕ
  pub created_at : ℕ

-- What an operation asks of the sockets, the message service and the call store. A failed write of
-- the store is only logged, so it changes nothing here.
pub data Effect : Type 0 where
  send : ℕ → Event → Effect
  broadcast : ℕ → Event → Effect
  system_message : ℕ → EndReason → ℕ → Effect
  store_create : GroupCallDocument → Effect
  store_participants : ℕ → List ℕ → Effect
  store_status : ℕ → EndStatus → ℕ → Effect

-- The fields of Hub that the sessions use; a flag says whether a collaborator is configured.
pub record Hub : Type 0 where
  pub group_calls : Dict GroupCallSession
  pub has_group_chat_hub : Bool
  pub has_message_service : Bool
  pub has_call_store : Bool

abbrev pub participant_ids : GroupCallSession → List ℕ
participant_ids s = sort_ids s.participants

abbrev pub active_participant_ids : GroupCallSession → List ℕ
active_participant_ids s = sort_ids s.active_participants

abbrev pub joined_ids : GroupCallSession → List ℕ
joined_ids s = sort_ids s.joined

abbrev pub is_participant : ℕ → GroupCallSession → Bool
is_participant u s = has u s.participants

abbrev pub is_joined : ℕ → GroupCallSession → Bool
is_joined u s = has u s.joined

-- UpdateActivity, and touchCallSessionLocked before it
abbrev pub update_activity : ℕ → GroupCallSession → GroupCallSession
update_activity now s = record s { last_activity = now }

-- The loop of firstJoinedLocked over the sorted ids.
unfoldable pub first_connected : Dict ℕ → List ℕ → Option ℕ
first_connected gone [] = none
first_connected gone (u ∷ us) = if has_key u gone then first_connected gone us else some u

unfoldable pub first_joined : GroupCallSession → Option ℕ
first_joined s = first_connected s.disconnected_at (joined_ids s)

-- GroupCallSnapshot
pub record GroupCallSnapshot : Type 0 where
  pub call_id : ℕ
  pub chat_id : ℕ
  pub caller_id : ℕ
  pub participants : List ℕ
  pub joined : List ℕ
  pub active_participants : List ℕ

abbrev pub snapshot_session : GroupCallSession → GroupCallSnapshot
snapshot_session s = record {
  call_id = s.call_id;
  chat_id = s.chat_id;
  caller_id = s.caller_id;
  participants = participant_ids s;
  joined = joined_ids s;
  active_participants = active_participant_ids s;
}

-- What an operation does to the one session that it found: its result, the session afterwards
-- (`none` when it is deleted from the map), and its effects.
pub record Reply (A : Type 0) : Type 0 where
  pub result : Result A
  pub session : Option GroupCallSession
  pub effects : List Effect

abbrev pub refuse : {A : Type 0} → CallError → GroupCallSession → Reply A
refuse e s = record { result = err e; session = some s; effects = [] }

abbrev pub reply : {A : Type 0} → A → GroupCallSession → Reply A
reply a s = record { result = ok a; session = some s; effects = [] }

abbrev pub commit : ℕ → Option GroupCallSession → Hub → Hub
commit id none h = record h { group_calls = erase id h.group_calls }
commit id (some s) h = record h { group_calls = insert id s h.group_calls }

-- The lookup with which the methods begin: `session, ok := h.groupCalls[callID]`.
unfoldable pub on_session :
    {A : Type 0} → ℕ → (GroupCallSession → Reply A) → Hub → Result A × Hub × List Effect
on_session id f h = elim (lookup id h.group_calls) [
  | none ↦ (err call_not_found, h, [])
  | some s ↦ let r = f s in (r.result, commit id r.session h, r.effects)
]

-- persistCallEnd
unfoldable pub persist_call_end : Hub → ℕ → GroupCallSession → List Effect
persist_call_end h now s =
    if h.has_call_store
    then store_status s.call_id (if leb (length s.joined) 1 then cancelled else ended) now ∷ []
    else []

unfoldable pub get_group_call_snapshot : ℕ → Hub → Result GroupCallSnapshot
get_group_call_snapshot id h = elim (lookup id h.group_calls) [
  | none ↦ err call_not_found
  | some s ↦ ok (snapshot_session s)
]

pub Result-cases :
    {A : Type 0} (r : Result A) → ((a : A) × (r ≡ ok a)) ⊎ ((e : CallError) × (r ≡ err e))
Result-cases (ok a) = inl (a, refl)
Result-cases (err e) = inr (e, refl)
