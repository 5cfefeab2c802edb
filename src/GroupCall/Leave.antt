-- ===== src/GroupCall/Leave.antt =====
-- groupws/hub.go: EndCallByUser and ListCallIDsByUser.
use link_up_server.Base.{
  ℕ, ◌==◌, Bool, true, false, none, some, List, [], ◌∷◌, if◌then◌else◌, Dict, erase, has, remove,
  length, sort_ids,
}
use link_up_server.GroupCall.Session.{
  GroupCallSession, Hub, Result, Reply, ok, not_joined, Effect, participant_ids, joined_ids,
  is_joined, refuse, on_session, persist_call_end,
}

pub record EndCallResult : Type 0 where
  pub ended : Bool
  pub chat_id : ℕ
  pub call_id : ℕ
  pub notify_user_ids : List ℕ
  pub notify_participant_ids : List ℕ

abbrev pub end_result : Bool → GroupCallSession → EndCallResult
end_result ended s = record {
  ended = ended;
  chat_id = s.chat_id;
  call_id = s.call_id;
  notify_user_ids = joined_ids s;
  notify_participant_ids = participant_ids s;
}

-- The three deletes by which a user leaves.
unfoldable pub leave : ℕ → GroupCallSession → GroupCallSession
leave user s = record s {
  joined = remove user s.joined;
  active_participants = remove user s.active_participants;
  disconnected_at = erase user s.disconnected_at;
}

unfoldable pub end_call : ℕ → ℕ → Hub → GroupCallSession → Reply EndCallResult
unfolding leave
end_call ender now h s =
    if is_joined ender s
    then if s.caller_id == ender
      then record {
        result = ok (end_result true s);
        session = none;
        effects = persist_call_end h now s;
      }
      else (let s' = leave ender s in
          if length s'.joined == 0
          then record {
            result = ok (end_result true s');
            session = none;
            effects = persist_call_end h now s';
          }
          else record { result = ok (end_result false s'); session = some s'; effects = [] })
    else refuse not_joined s

unfoldable pub end_call_by_user : ℕ → ℕ → ℕ → Hub → Result EndCallResult × Hub × List Effect
end_call_by_user ender call now h = on_session call (end_call ender now h) h

unfoldable pub calls_joined_by : ℕ → Dict GroupCallSession → List ℕ
calls_joined_by user [] = []
calls_joined_by user ((id, s) ∷ d) =
    let rest = calls_joined_by user d in if has user s.joined then id ∷ rest else rest

unfoldable pub list_call_ids_by_user : ℕ → Hub → List ℕ
list_call_ids_by_user user h = sort_ids (calls_joined_by user h.group_calls)
