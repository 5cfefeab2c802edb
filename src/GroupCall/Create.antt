-- ===== src/GroupCall/Create.antt =====
-- groupws/hub.go: CreateGroupCall. It reads the sessions under one lock and stores the new session
-- under another, so it is the composition of `prepare_call` and `insert_call`.
use link_up_server.Base.{
  ℕ, ◌+◌, ◌*◌, ◌==◌, Bool, true, false, some, List, [], ◌∷◌, map, if◌then◌else◌, Dict, insert,
  IdSet, has, add,
}
use link_up_server.Text.{Text, codes, text_eq, to_lower, trim_space}
use link_up_server.GroupCall.Session.{
  GroupCallSession, Hub, Result, ok, err, only_video, chat_has_call, not_in_group, Effect,
  store_create, participant_ids, second,
}

pub record CreateRequest : Type 0 where
  pub chat_id : ℕ
  pub caller_id : ℕ
  pub call_type : Text
  pub participant_ids : List ℕ
  pub member_ids : List ℕ

abbrev pub video : Text
video = codes "video"

unfoldable pub normal_call_type : Text → Text
normal_call_type t = let u = to_lower (trim_space t) in if text_eq u [] then video else u

-- The loop over `h.groupCalls` that looks for a session of the chat.
unfoldable pub chat_has_session : ℕ → Dict GroupCallSession → Bool
chat_has_session chat [] = false
chat_has_session chat ((id, s) ∷ d) = if s.chat_id == chat then true else chat_has_session chat d

-- The loop that fills `memberSet`.
unfoldable pub member_set : List ℕ → IdSet
member_set [] = []
member_set (id ∷ ids) = let rest = member_set ids in if id == 0 then rest else add id rest

-- The loop that fills `selected`, with its early return.
unfoldable pub select_participants : IdSet → List ℕ → IdSet → Result IdSet
select_participants members [] selected = ok selected
select_participants members (id ∷ ids) selected = elim (id == 0) [
  | true ↦ select_participants members ids selected
  | false ↦ elim (has id members) [
    | true ↦ select_participants members ids (add id selected)
    | false ↦ err (not_in_group id)
  ]
]

abbrev pub all_set_to : Bool → IdSet → Dict Bool
all_set_to b = map λ id. (id, b)

unfoldable pub new_session : ℕ → ℕ → CreateRequest → Text → IdSet → GroupCallSession
new_session uuid now r call_type others =
    let selected = add r.caller_id others in
    record {
      call_id = uuid;
      chat_id = r.chat_id;
      caller_id = r.caller_id;
      call_type = call_type;
      participants = selected;
      pending_requests = [];
      joined = r.caller_id ∷ [];
      active_participants = [];
      muted = all_set_to false selected;
      video_enabled = all_set_to true selected;
      disconnected_at = [];
      created_at = now;
      last_activity = now;
      expires_at = some (now + 60 * second);
      status = codes "calling";
    }

-- Up to the second lock.
unfoldable pub prepare_call : ℕ → ℕ → CreateRequest → Hub → Result GroupCallSession
prepare_call uuid now r h =
    let call_type = normal_call_type r.call_type in
    if text_eq call_type video
    then if chat_has_session r.chat_id h.group_calls
      then err chat_has_call
      else elim (select_participants (member_set r.member_ids) r.participant_ids []) [
        | ok others ↦ ok (new_session uuid now r call_type others)
        | err e ↦ err e
      ]
    else err only_video

-- From the second lock on.
unfoldable pub insert_call : GroupCallSession → Hub → Hub
insert_call s h = record h { group_calls = insert s.call_id s h.group_calls }

unfoldable pub persist_create : GroupCallSession → Hub → List Effect
persist_create s h =
    if h.has_call_store
    then store_create (record {
      call_id = s.call_id;
      chat_id = s.chat_id;
      caller_id = s.caller_id;
      call_type = s.call_type;
      participants = participant_ids s;
      created_at = s.created_at;
    })
      ∷ []
    else []

unfoldable pub create_group_call :
    ℕ → ℕ → CreateRequest → Hub → Result GroupCallSession × Hub × List Effect
create_group_call uuid now r h = elim (prepare_call uuid now r h) [
  | ok s ↦ (ok s, insert_call s h, persist_create s h)
  | err e ↦ (err e, h, [])
]

-- What the hub is after the second lock, when the first one was held over another hub.
abbrev pub store_call : Result GroupCallSession → Hub → Hub
store_call (ok s) h = insert_call s h
store_call (err e) h = h
