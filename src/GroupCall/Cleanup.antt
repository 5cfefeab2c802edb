-- ===== src/GroupCall/Cleanup.antt =====
-- groupws/hub.go: CleanupStaleCalls and notifyCallEnded. The loops over maps follow the entries in
-- the order of the list, which stands for any order in which Go visits them.
use link_up_server.Base.{
  ℕ, ◌-◌, ◌*◌, ◌==◌, Bool, true, false, not, ◌||◌, has_key, Option, none, some, List, [], ◌∷◌, ◌++◌,
  map, if◌then◌else◌, ltb, leb, Dict, erase, has, remove, length,
}
use link_up_server.GroupCall.Session.{
  GroupCallSession, Hub, EndReason, timeout, disconnected, Event, join_rejected, call_ended, left,
  creator_changed, Effect, send, broadcast, system_message, participant_ids, joined_ids,
  first_joined, second, persist_call_end,
}

-- callDisconnectGrace
abbrev pub call_disconnect_grace : ℕ
call_disconnect_grace = 15 * second

abbrev pub pending_limit : ℕ
pending_limit = 30 * second

-- droppedClient, less the pointer to the session and `notify`, which nothing reads
pub record Dropped : Type 0 where
  pub user_id : ℕ
  pub remaining : List ℕ
  pub new_caller_id : Option ℕ
  pub ended : Bool

-- The loop over `PendingRequests`: what stays, and who is told.
unfoldable pub live_requests : ℕ → Dict ℕ → Dict ℕ
live_requests now [] = []
live_requests now ((u, t) ∷ d) =
    let rest = live_requests now d in if leb (now - t) pending_limit then (u, t) ∷ rest else rest

unfoldable pub timed_out_requests : ℕ → Dict ℕ → List ℕ
timed_out_requests now [] = []
timed_out_requests now ((u, t) ∷ d) =
    let rest = timed_out_requests now d in if leb (now - t) pending_limit then rest else u ∷ rest

-- The deletes for a user whose grace is over.
unfoldable pub forget : ℕ → GroupCallSession → GroupCallSession
forget user s = record s {
  disconnected_at = erase user s.disconnected_at;
  joined = remove user s.joined;
  active_participants = remove user s.active_participants;
  muted = erase user s.muted;
  video_enabled = erase user s.video_enabled;
}

-- The successor of a creator who is dropped.
unfoldable pub successor : ℕ → GroupCallSession → Option ℕ
successor user s = if s.caller_id == user then first_joined s else none

abbrev pub with_caller : Option ℕ → GroupCallSession → GroupCallSession
with_caller none s = s
with_caller (some u) s = record s { caller_id = u }

unfoldable pub drop_user : ℕ → GroupCallSession → GroupCallSession
unfolding forget successor
drop_user user s = with_caller (successor user (forget user s)) (forget user s)

abbrev pub dropped_client : ℕ → GroupCallSession → Dropped
dropped_client user s =
    let s' = drop_user user s in
    let over = length s'.joined == 0 in
    record {
      user_id = user;
      remaining = if over then [] else joined_ids s';
      new_caller_id = successor user (forget user s);
      ended = over;
    }

-- An entry that has been deleted meanwhile, or whose grace is not over.
unfoldable pub is_spared : ℕ → ℕ → ℕ → GroupCallSession → Bool
is_spared now u t s = not (has_key u s.disconnected_at) || ltb (now - t) call_disconnect_grace

-- The loop over `DisconnectedAt`, which stops when the call has ended. Go's `range` does not visit
-- an entry that was deleted before its turn.
unfoldable pub drop_disconnected : ℕ → Dict ℕ → GroupCallSession → GroupCallSession × List Dropped
drop_disconnected now [] s = (s, [])
drop_disconnected now ((u, t) ∷ d) s = elim (is_spared now u t s) [
  | true ↦ drop_disconnected now d s
  | false ↦ elim (length (drop_user u s).joined == 0) [
    | true ↦ (drop_user u s, dropped_client u s ∷ [])
    | false ↦
        let (s', ds) = drop_disconnected now d (drop_user u s) in (s', dropped_client u s ∷ ds)
  ]
]

abbrev pub has_expired : ℕ → GroupCallSession → Bool
has_expired now s = elim s.expires_at [ none ↦ false | some e ↦ ltb e now ]

-- The body of the loop over the sessions, for a session that has not expired.
unfoldable pub tend : ℕ → GroupCallSession → GroupCallSession × List Dropped
tend now s =
    drop_disconnected now s.disconnected_at
      (record s { pending_requests = live_requests now s.pending_requests })

abbrev pub any_ended : List Dropped → Bool
any_ended [] = false
any_ended (d ∷ ds) = if d.ended then true else any_ended ds

-- The session after the sweep; `none` when it is deleted.
unfoldable pub sweep_session : ℕ → GroupCallSession → Option GroupCallSession
unfolding tend
sweep_session now s =
    if has_expired now s
    then none
    else let (s', ds) = tend now s in if any_ended ds then none else some s'

-- The loop over `h.groupCalls`.
unfoldable pub sweep : ℕ → Dict GroupCallSession → Dict GroupCallSession
unfolding sweep_session
sweep now [] = []
sweep now ((id, s) ∷ d) =
    let rest = sweep now d in elim (sweep_session now s) [ none ↦ rest | some s' ↦ (id, s') ∷ rest ]

abbrev pub send_to_users : List ℕ → Event → List Effect
send_to_users users e = map (λ u. send u e) users

-- The participants that have not joined.
unfoldable pub not_yet_joined : List ℕ → GroupCallSession → List ℕ
not_yet_joined [] s = []
not_yet_joined (u ∷ us) s =
    let rest = not_yet_joined us s in if has u s.joined then rest else u ∷ rest

unfoldable pub notify_call_ended : Hub → GroupCallSession → Event → List Effect
notify_call_ended h s e =
    send_to_users (joined_ids s) e
    ++ (send_to_users (not_yet_joined (participant_ids s) s) e
        ++ (if h.has_group_chat_hub then broadcast s.chat_id e ∷ [] else []))

abbrev pub end_message : Hub → GroupCallSession → EndReason → ℕ → List Effect
end_message h s reason actor =
    if h.has_message_service then system_message s.chat_id reason actor ∷ [] else []

-- The effects of one dropped client; `s` is the session as the sweep left it.
unfoldable pub dropped_effects : Hub → ℕ → ℕ → GroupCallSession → Dropped → List Effect
dropped_effects h now id s d =
    if d.ended
    then notify_call_ended h s (call_ended id disconnected)
      ++ (end_message h s disconnected d.user_id ++ persist_call_end h now s)
    else send_to_users d.remaining (left id d.user_id) ++ elim d.new_caller_id [
      | none ↦ []
      | some c ↦ send_to_users d.remaining (creator_changed id c)
    ]

unfoldable pub each_dropped : Hub → ℕ → ℕ → GroupCallSession → List Dropped → List Effect
unfolding dropped_effects
each_dropped h now id s [] = []
each_dropped h now id s (d ∷ ds) = dropped_effects h now id s d ++ each_dropped h now id s ds

unfoldable pub expired_effects : Hub → ℕ → GroupCallSession → List Effect
expired_effects h now s =
    notify_call_ended h s (call_ended s.call_id timeout)
    ++ (end_message h s timeout 0 ++ persist_call_end h now s)

-- The three loops after the lock, each over what the sweep collected.
unfoldable pub pending_phase : ℕ → Dict GroupCallSession → List Effect
pending_phase now [] = []
pending_phase now ((id, s) ∷ d) =
    let rest = pending_phase now d in
    if has_expired now s
    then rest
    else map (λ u. send u (join_rejected id u)) (timed_out_requests now s.pending_requests) ++ rest

unfoldable pub dropped_phase : Hub → ℕ → Dict GroupCallSession → List Effect
dropped_phase h now [] = []
dropped_phase h now ((id, s) ∷ d) =
    let rest = dropped_phase h now d in
    if has_expired now s
    then rest
    else let (s', ds) = tend now s in each_dropped h now id s' ds ++ rest

unfoldable pub expired_phase : Hub → ℕ → Dict GroupCallSession → List Effect
expired_phase h now [] = []
expired_phase h now ((id, s) ∷ d) =
    let rest = expired_phase h now d in
    if has_expired now s then expired_effects h now s ++ rest else rest

unfoldable pub cleanup_stale_calls : ℕ → Hub → Hub × List Effect
cleanup_stale_calls now h =
    let calls = h.group_calls in
    (
      record h { group_calls = sweep now calls },
      pending_phase now calls ++ (dropped_phase h now calls ++ expired_phase h now calls),
    )
