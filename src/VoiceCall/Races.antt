-- ===== src/VoiceCall/Races.antt =====
-- services/voice_call.service.go: what EndCall does to a call that is accepted between its read and
-- its update, which has no condition on the status.
use link_up_server.Base.{ℕ, ◌≡◌, refl, false, true, none, some, arith, lookup, lookup-insert, ◌==◌}
use link_up_server.VoiceCall.Call.{Call, cancelled, is_waiting, is_over}
use link_up_server.VoiceCall.Table.{
  Db, ok, answer_atomic, accepted, accept_call_atomic, update_call, update_status, with_status,
}
use link_up_server.VoiceCall.Service.{
  Env, accept_call, check_end, end_status, call_duration, write_end,
}

answered :
    (now id : ℕ) (c : Call) (db : Db)
    → lookup id db.calls ≡ some c
    → is_waiting c.status ≡ true
    → lookup id (accept_call now c.callee_id id db).1.calls ≡ some (accepted now c)
unfolding accept_call accept_call_atomic answer_atomic
answered now id c db found waits =
    let self : (c.callee_id == c.callee_id) ≡ true = ground arith in
    rw (found, self, waits, answer_atomic)
      (ground (arith, lookup-insert id id (accepted now c) db.calls))

-- The caller hangs up, the checks pass on the waiting row, the callee accepts, and then the update
-- is made: both requests succeed, and the row is cancelled and has a start.
accept_call-then_end :
    (env : Env) (now later id : ℕ) (c : Call) (db : Db)
    → lookup id db.calls ≡ some c
    → is_waiting c.status ≡ true
    → c.started_at ≡ none
    → (check_end c.caller_id (lookup id db.calls) ≡ ok c)
      × (lookup id
            (write_end env later c.caller_id id c (accept_call now c.callee_id id db).1).1.calls
          ≡ some (record c { status = cancelled; started_at = some now; ended_at = some later }))
unfolding check_end write_end update_status update_call with_status end_status call_duration
accept_call-then_end env now later id c db found waits unstarted =
    let self : (c.caller_id == c.caller_id) ≡ true = ground arith in
    let going : is_over c.status ≡ false = ground arith in
    let row = answered now id c db found waits in
    let d = (accept_call now c.callee_id id db).1.calls in
    (
      rw (found, self, going) refl,
      rw (row, update_call)
          (ground (
            arith,
            lookup-insert id id
                (with_status (end_status c.caller_id c) none (some later)
                  (call_duration later c.started_at) (accepted now c))
                d,
            self,
            waits,
            unstarted,
          )),
    )
