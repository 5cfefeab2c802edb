-- ===== src/VoiceCall/Service.antt =====
-- services/voice_call.service.go: the operations on calls. The friendships, the connected users and
-- whether notifications are configured come as an environment; what is sent is a list of effects.
use link_up_server.Base.{
  ℕ, ◌-◌, ◌/◌, ◌==◌, Bool, true, false, not, Option, none, some, List, [], ◌∷◌, ◌++◌, if◌then◌else◌,
  lookup,
}
use link_up_server.Text.{Text}
use link_up_server.VoiceCall.Call.{
  Call, CallType, CallStatus, calling, connected, ended, missed, rejected, cancelled, is_waiting,
  is_over, is_connected, is_video, parse_call_type,
}
use link_up_server.VoiceCall.Table.{
  Db, Result, ok, err, self_call, not_friend, call_not_found, not_participant, already_ended,
  not_connected, not_video, create_if_not_busy, update_status, accept_call_atomic,
  reject_call_atomic, update_muted, update_video_enabled, find_active, hide_call, count_missed,
  mark_missed_read, takes_part,
}

pub record Env : Type 0 where
  pub is_accepted_friend : ℕ → ℕ → Bool
  pub is_user_online : ℕ → Bool
  pub has_notif_service : Bool

abbrev pub second : ℕ
second = 1_000_000_000

abbrev pub unix_milli : ℕ → ℕ
unix_milli t = t / 1_000_000

-- dto.CallStatusPayload
pub record CallStatusPayload : Type 0 where
  pub call_id : ℕ
  pub status : CallStatus
  pub caller_id : ℕ
  pub callee_id : ℕ
  pub call_type : CallType
  pub video_enabled_caller : Bool
  pub video_enabled_callee : Bool
  pub started_at : Option ℕ
  pub ended_at : Option ℕ
  pub duration : ℕ

-- ws.OutgoingMessage, by its type
pub data Message : Type 0 where
  call_busy : ℕ → Message
  call_incoming : ℕ → ℕ → CallType → ℕ → Message
  call_status : CallStatusPayload → Message
  call_missed : ℕ → ℕ → ℕ → Message
  call_cancelled : ℕ → ℕ → ℕ → Message
  call_mute : ℕ → ℕ → Bool → Message
  call_video : ℕ → ℕ → Bool → Message
  call_signal : ℕ → ℕ → Text → Message

-- `missed_notification receiver sender` is the notification of a missed call.
pub data Effect : Type 0 where
  send_to_user : ℕ → Message → Effect
  missed_notification : ℕ → ℕ → Effect

abbrev pub Outcome : Type 0 → Type 0
Outcome A = Result A × Db × List Effect

abbrev pub send_to_both : Call → Message → List Effect
send_to_both c m = send_to_user c.caller_id m ∷ send_to_user c.callee_id m ∷ []

abbrev pub notify_missed : Env → ℕ → ℕ → List Effect
notify_missed env receiver sender =
    if env.has_notif_service then missed_notification receiver sender ∷ [] else []

abbrev pub payload_of : CallStatus → Option ℕ → Option ℕ → ℕ → Call → CallStatusPayload
payload_of status started ended_at duration c = record {
  call_id = c.id;
  status = status;
  caller_id = c.caller_id;
  callee_id = c.callee_id;
  call_type = c.call_type;
  video_enabled_caller = c.video_enabled_caller;
  video_enabled_callee = c.video_enabled_callee;
  started_at = started;
  ended_at = ended_at;
  duration = duration;
}

abbrev pub new_call : ℕ → ℕ → ℕ → ℕ → CallType → Call
new_call uuid now caller callee call_type = record {
  id = uuid;
  caller_id = caller;
  callee_id = callee;
  call_type = call_type;
  is_group = false;
  status = calling;
  started_at = none;
  ended_at = none;
  duration = 0;
  muted_caller = false;
  muted_callee = false;
  video_enabled_caller = false;
  video_enabled_callee = false;
  created_at = now;
}

-- What InitiateCall does once the row is there.
unfoldable pub ring : Env → ℕ → Call → Db → Db × List Effect
ring env now c db =
    let last = send_to_user c.caller_id (call_status (payload_of calling none none 0 c)) in
    if env.is_user_online c.callee_id
    then (
      db,
      send_to_user c.callee_id (call_incoming c.id c.caller_id c.call_type (unix_milli now))
          ∷ last
          ∷ [],
    )
    else (
      (update_status c.id missed none (some now) 0 db).1,
      send_to_user c.caller_id (call_status (payload_of missed none (some (unix_milli now)) 0 c))
          ∷ (notify_missed env c.callee_id c.caller_id ++ last ∷ []),
    )

-- InitiateCall; `ok none` is the answer to a busy callee.
unfoldable pub initiate_call : Env → ℕ → ℕ → ℕ → ℕ → Text → Db → Outcome (Option Call)
initiate_call env uuid now caller callee type_text db =
    if caller == callee
    then (err self_call, db, [])
    else if not (env.is_accepted_friend caller callee)
    then (err not_friend, db, [])
    else let c = new_call uuid now caller callee (parse_call_type type_text) in
      let (busy, db') = create_if_not_busy c db in
      if busy
      then (ok none, db', send_to_user caller (call_busy callee) ∷ [])
      else let (db'', sent) = ring env now c db' in (ok (some c), db'', sent)

-- What AcceptCall and RejectCall send for the updated row.
abbrev pub announce : (Call → CallStatusPayload) → Result Call × Db → Outcome (Unit {0})
announce payload (ok c, db) = (ok tt, db, send_to_both c (call_status (payload c)))
announce payload (err e, db) = (err e, db, [])

unfoldable pub accept_call : ℕ → ℕ → ℕ → Db → Outcome (Unit {0})
accept_call now user id db =
    announce (payload_of connected (some (unix_milli now)) none 0)
      (accept_call_atomic now id user db)

unfoldable pub reject_call : ℕ → ℕ → ℕ → Db → Outcome (Unit {0})
reject_call now user id db =
    announce (payload_of rejected none (some (unix_milli now)) 0)
      (reject_call_atomic now id user db)

-- The `newStatus` of EndCall.
unfoldable pub end_status : ℕ → Call → CallStatus
end_status user c =
    if is_waiting c.status then (if user == c.caller_id then cancelled else missed) else ended

-- `int(now.Sub(*call.StartedAt).Seconds())`; a negative value is not stored, as 0 is not.
unfoldable pub call_duration : ℕ → Option ℕ → ℕ
call_duration now none = 0
call_duration now (some t) = (now - t) / second

abbrev pub after_end : Env → ℕ → CallStatus → Call → List Effect
after_end env now missed c =
    send_to_user c.callee_id (call_missed c.id c.caller_id (unix_milli now))
    ∷ notify_missed env c.callee_id c.caller_id
after_end env now cancelled c =
    send_to_user c.callee_id (call_cancelled c.id c.caller_id (unix_milli now)) ∷ []
after_end env now _ c = []

-- EndCall up to its update: the row that FindByID has read, and the checks.
unfoldable pub check_end : ℕ → Option Call → Result Call
check_end user none = err call_not_found
check_end user (some c) =
    if not (takes_part user c)
    then err not_participant
    else if is_over c.status
    then err already_ended
    else ok c

-- EndCall from its update on. The update has no condition on the status, so it writes whatever the
-- row is by now.
unfoldable pub write_end : Env → ℕ → ℕ → ℕ → Call → Db → Outcome (Unit {0})
unfolding end_status call_duration
write_end env now user id c db =
    let status = end_status user c in
    let duration = call_duration now c.started_at in
    (
      ok tt,
      (update_status id status none (some now) duration db).1,
      send_to_both c (call_status (payload_of status none (some (unix_milli now)) duration c))
          ++ after_end env now status c,
    )

-- EndCall, when nothing comes between its two statements.
unfoldable pub end_call : Env → ℕ → ℕ → ℕ → Db → Outcome (Unit {0})
end_call env now user id db = elim (check_end user (lookup id db.calls)) [
  | err e ↦ (err e, db, [])
  | ok c ↦ write_end env now user id c db
]

unfoldable pub cleanup_disconnected_calls : Env → ℕ → ℕ → Db → Outcome (Unit {0})
cleanup_disconnected_calls env now user db = elim (find_active user db.calls) [
  | none ↦ (ok tt, db, [])
  | some c ↦ end_call env now user c.id db
]

-- For the caller's side and the callee's side of a row.
abbrev pub by_side : {A : Type 0} → ℕ → Call → A → A → A → A
by_side user c caller callee neither =
    if user == c.caller_id then caller else if user == c.callee_id then callee else neither

-- What a toggle answers and sends after its update.
abbrev pub toggled : Call → Message → Bool × Db → Outcome (Unit {0})
toggled c m (true, db) = (ok tt, db, send_to_both c m)
toggled c m (false, db) = (err call_not_found, db, [])

unfoldable pub toggle_mute : ℕ → ℕ → Bool → Db → Outcome (Unit {0})
toggle_mute user id muted db = elim (lookup id db.calls) [
  | none ↦ (err call_not_found, db, [])
  | some c ↦
      if not (is_connected c.status)
      then (err not_connected, db, [])
      else by_side user c
          (toggled c (call_mute id user muted) (update_muted id (some muted) none db))
          (toggled c (call_mute id user muted) (update_muted id none (some muted) db))
          (err not_participant, db, [])
]

unfoldable pub toggle_video : ℕ → ℕ → Bool → Db → Outcome (Unit {0})
toggle_video user id enabled db = elim (lookup id db.calls) [
  | none ↦ (err call_not_found, db, [])
  | some c ↦
      if not (is_video c.call_type)
      then (err not_video, db, [])
      else if not (is_connected c.status)
      then (err not_connected, db, [])
      else by_side user c
          (toggled c (call_video id user enabled) (update_video_enabled id (some enabled) none db))
          (toggled c (call_video id user enabled) (update_video_enabled id none (some enabled) db))
          (err not_participant, db, [])
]

unfoldable pub get_call_detail : ℕ → ℕ → Db → Result Call
get_call_detail user id db = elim (lookup id db.calls) [
  | none ↦ err call_not_found
  | some c ↦ if not (takes_part user c) then err not_participant else ok c
]

unfoldable pub handle_signal : ℕ → ℕ → Text → Db → Result (Unit {0}) × List Effect
handle_signal sender id signal db = elim (lookup id db.calls) [
  | none ↦ (err call_not_found, [])
  | some c ↦ if not (takes_part sender c) then (err not_participant, []) else (
    ok tt,
    send_to_user (if sender == c.callee_id then c.caller_id else c.callee_id)
          (call_signal id sender signal)
        ∷ [],
  )
]

unfoldable pub hide_call_from_history : ℕ → ℕ → Db → Result (Unit {0}) × Db
hide_call_from_history user id db = elim (lookup id db.calls) [
  | none ↦ (err call_not_found, db)
  | some c ↦
      if not (takes_part user c) then (err not_participant, db) else (ok tt, hide_call user id db)
]

unfoldable pub get_missed_call_count : ℕ → Db → ℕ
get_missed_call_count user db = elim (lookup user db.last_read) [
  | none ↦ 0
  | some since ↦ count_missed user since db.hidden db.calls
]

unfoldable pub mark_missed_as_read : ℕ → ℕ → Db → Result (Unit {0}) × Db
mark_missed_as_read user now = mark_missed_read user now
