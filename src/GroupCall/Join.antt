-- ===== src/GroupCall/Join.antt =====
-- groupws/hub.go: RequestJoinCall, ApproveJoinCall, RejectJoinCall and MarkDisconnected.
use link_up_server.Base.{
  ℕ, ◌==◌, Bool, true, false, none, some, List, [], ◌∷◌, if◌then◌else◌, ltb, insert, erase, has_key,
  add, length,
}
use link_up_server.GroupCall.Session.{
  GroupCallSession, Hub, Result, Reply, ok, err, only_creator_approves, no_pending_request,
  only_creator_rejects, Effect, store_participants, participant_ids, joined_ids, is_participant,
  is_joined, update_activity, refuse, reply, on_session,
}

pub record RequestJoinResult : Type 0 where
  pub chat_id : ℕ
  pub caller_id : ℕ
  pub joined_now : Bool
  pub joined_ids : List ℕ

pub record ApproveJoinResult : Type 0 where
  pub call_id : ℕ
  pub chat_id : ℕ
  pub caller_id : ℕ
  pub participant_ids : List ℕ
  pub joined_ids : List ℕ

-- A call with two members is no longer stale after its first minute.
abbrev pub keep_alive : GroupCallSession → GroupCallSession
keep_alive s = record s { expires_at = if ltb 1 (length s.joined) then none else s.expires_at }

-- The writes by which a user enters the call, in `RequestJoinCall` and `ApproveJoinCall`.
unfoldable pub enter : ℕ → ℕ → GroupCallSession → GroupCallSession
enter user now s = update_activity now (
    keep_alive
      (record s { joined = add user s.joined; disconnected_at = erase user s.disconnected_at }))

unfoldable pub request_join : ℕ → ℕ → GroupCallSession → Reply RequestJoinResult
request_join user now s =
    if is_participant user s
    then (let s' = enter user now s in
        reply
          (record {
            chat_id = s.chat_id;
            caller_id = s.caller_id;
            joined_now = true;
            joined_ids = joined_ids s';
          })
          s')
    else reply
        (record {
          chat_id = s.chat_id;
          caller_id = s.caller_id;
          joined_now = false;
          joined_ids = [];
        })
        (update_activity now (record s { pending_requests = insert user now s.pending_requests }))

unfoldable pub request_join_call : ℕ → ℕ → ℕ → Hub → Result RequestJoinResult × Hub × List Effect
request_join_call user call now = on_session call (request_join user now)

-- A pending request becomes a participant.
unfoldable pub welcome : ℕ → GroupCallSession → GroupCallSession
welcome user s = record s {
  pending_requests = erase user s.pending_requests;
  participants = add user s.participants;
}

-- The writes of `ApproveJoinCall`.
unfoldable pub admit : ℕ → ℕ → GroupCallSession → GroupCallSession
unfolding enter welcome
admit user now s = enter user now (welcome user s)

unfoldable pub approve_join : ℕ → ℕ → ℕ → Bool → GroupCallSession → Reply ApproveJoinResult
approve_join creator user now has_store s =
    if s.caller_id == creator
    then if has_key user s.pending_requests
      then (let s' = admit user now s in
          record {
            result = ok (record {
              call_id = s.call_id;
              chat_id = s.chat_id;
              caller_id = s.caller_id;
              participant_ids = participant_ids s';
              joined_ids = joined_ids s';
            });
            session = some s';
            effects =
                if has_store then store_participants s.call_id (participant_ids s') ∷ [] else [];
          })
      else refuse no_pending_request s
    else refuse only_creator_approves s

unfoldable pub approve_join_call :
    ℕ → ℕ → ℕ → ℕ → Hub → Result ApproveJoinResult × Hub × List Effect
approve_join_call creator user call now h =
    on_session call (approve_join creator user now h.has_call_store) h

unfoldable pub reject_join : ℕ → ℕ → GroupCallSession → Reply (Unit {0})
reject_join creator user s =
    if s.caller_id == creator
    then reply tt (record s { pending_requests = erase user s.pending_requests })
    else refuse only_creator_rejects s

unfoldable pub reject_join_call : ℕ → ℕ → ℕ → Hub → Result (Unit {0}) × Hub × List Effect
reject_join_call creator user call = on_session call (reject_join creator user)

unfoldable pub mark : ℕ → ℕ → GroupCallSession → Reply Bool
mark user now s =
    if is_joined user s
    then reply true (record s { disconnected_at = insert user now s.disconnected_at })
    else reply false s

abbrev pub true_if_ok : Result Bool → Bool
true_if_ok (ok b) = b
true_if_ok (err e) = false

unfoldable pub mark_disconnected : ℕ → ℕ → ℕ → Hub → Bool × Hub
mark_disconnected call user now h =
    let (r, h', _) = on_session call (mark user now) h in (true_if_ok r, h')
