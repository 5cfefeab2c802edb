-- ===== src/VoiceCall/Answers.antt =====
-- services/voice_call.service.go: who can answer, end and follow a call, and who is told.
use link_up_server.Base.{
  ℕ, ◌≡◌, ◌≢◌, ◌⊎◌, inl, inr, refl, true, false, ◌&&◌, none, some, List, [], ◌∷◌, ◌++◌, arith,
  lookup, insert, lookup-insert, ◌==◌, Bool-cases, Option-cases,
}
use link_up_server.Text.{Text}
use link_up_server.VoiceCall.Call.{
  Call, calling, connected, missed, rejected, is_waiting, parse_call_type,
}
use link_up_server.VoiceCall.Table.{
  Db, count_active, takes_part, answer_atomic, accept_call_atomic, reject_call_atomic, update_call,
  update_status, with_status, create_if_not_busy, Result, ok, err, CallError, accepted, declined,
  not_waiting, call_not_found, not_participant,
}
use link_up_server.VoiceCall.Service.{
  Env, Effect, CallStatusPayload, send_to_user, call_status, call_signal, payload_of, initiate_call,
  ring, new_call, accept_call, reject_call, handle_signal, announce, send_to_both, notify_missed,
  unix_milli, Outcome,
}

-- The outcome of an answer by the user to a call that it would change by `f`, telling `payload`.
pub data Answered (f : Call → Call) (payload : Call → CallStatusPayload) (user id : ℕ) (db : Db)
    (o : Outcome (Unit {0})) : Type 0 where
  done :
      (c : Call)
      → lookup id db.calls ≡ some c
      → c.callee_id ≡ user
      → is_waiting c.status ≡ true
      → o ≡ (
        ok tt,
        record db { calls = insert id (f c) db.calls },
        send_to_both c (call_status (payload (f c))),
      )
      → Answered f payload user id db o
  refused :
      (e : CallError)
      → ((c : Call)
          → lookup id db.calls ≡ some c
          → c.callee_id ≡ user
          → is_waiting c.status ≡ false)
      → o ≡ (err e, db, [])
      → Answered f payload user id db o

answer-Answered :
    (f : Call → Call) (payload : Call → CallStatusPayload) (user id : ℕ) (db : Db)
    → ((c : Call) → (f c).caller_id ≡ c.caller_id)
    → ((c : Call) → (f c).callee_id ≡ c.callee_id)
    → Answered f payload user id db (announce payload (answer_atomic f id user db))
unfolding answer_atomic
answer-Answered f payload user id db same_caller same_callee =
    elim (Option-cases (lookup id db.calls)) [
      | inl missing ↦
          refused call_not_found (λ c at. absurd (ground arith)) (rw (missing, answer_atomic) refl)
      | inr (c, found) ↦ elim (Bool-cases (c.callee_id == user && is_waiting c.status)) [
        | inl waits ↦
            done c found (ground arith) (ground arith)
              (rw (found, waits, same_caller c, same_callee c, answer_atomic) refl)
        | inr refuses ↦
            refused not_waiting (λ b at callee. ground arith)
              (rw (found, refuses, answer_atomic) refl)
      ]
    ]

-- AcceptCall: if the user is the callee of the call and it is calling or ringing, the row becomes connected with its
-- start now, no other row changes, and both parties are told that the call is connected; else the user gets
-- an error, nothing changes and nobody is told.
pub accept_call-Answered :
    (now user id : ℕ) (db : Db)
    → Answered
        (accepted now)
        (payload_of connected (some (unix_milli now)) none 0)
        user
        id
        db
        (accept_call now user id db)
unfolding accept_call accept_call_atomic
accept_call-Answered now user id db =
    answer-Answered (accepted now) _ user id db (λ c. refl) (λ c. refl)

-- RejectCall: if the user is the callee of the call and it is calling or ringing, the row becomes rejected with its
-- end now, no other row changes, and both parties are told that the call is rejected; else the user gets
-- an error, nothing changes and nobody is told.
pub reject_call-Answered :
    (now user id : ℕ) (db : Db)
    → Answered
        (declined now)
        (payload_of rejected none (some (unix_milli now)) 0)
        user
        id
        db
        (reject_call now user id db)
unfolding reject_call reject_call_atomic
reject_call-Answered now user id db =
    answer-Answered (declined now) _ user id db (λ c. refl) (λ c. refl)

ring-offline :
    (env : Env) (now : ℕ) (c : Call) (db : Db)
    → lookup c.id db.calls ≡ some c
    → env.is_user_online c.callee_id ≡ false
    → (lookup c.id (ring env now c db).0.calls ≡ some (with_status missed none (some now) 0 c))
      × ((ring env now c db).1
          ≡ send_to_user c.caller_id
              (call_status (payload_of missed none (some (unix_milli now)) 0 c))
            ∷ (notify_missed env c.callee_id c.caller_id
                ++ send_to_user c.caller_id (call_status (payload_of calling none none 0 c)) ∷ []))
unfolding ring update_status update_call with_status
ring-offline env now c db found offline = rw offline (
  rw (found, update_call)
      (ground (arith, lookup-insert c.id c.id (with_status missed none (some now) 0 c) db.calls)),
  refl,
)

-- A call between accepted friends to a callee who is in no call in progress and is not connected is stored
-- as missed, with its end now, and the caller is told first that the call was missed and then, last of all,
-- that it is calling.
pub initiate_call-offline :
    (env : Env) (uuid now caller callee : ℕ) (t : Text) (db : Db)
    → caller ≢ callee
    → env.is_accepted_friend caller callee ≡ true
    → count_active callee db.calls ≡ 0
    → env.is_user_online callee ≡ false
    → (let c = new_call uuid now caller callee (parse_call_type t) in
        let o = initiate_call env uuid now caller callee t db in
        (lookup uuid o.1.calls ≡ some (record c { status = missed; ended_at = some now }))
        × (o.2
            ≡ send_to_user caller (call_status (payload_of missed none (some (unix_milli now)) 0 c))
              ∷ (notify_missed env callee caller
                  ++ send_to_user caller (call_status (payload_of calling none none 0 c)) ∷ [])))
unfolding initiate_call create_if_not_busy with_status
initiate_call-offline env uuid now caller callee t db ne friend free offline =
    let c = new_call uuid now caller callee (parse_call_type t) in
    let two : (caller == callee) ≡ false = ground arith in
    let db' : Db = record db { calls = insert uuid c db.calls } in
    rw (two, friend, free)
      (ring-offline env now c db' (ground (arith, lookup-insert uuid uuid c db.calls)) offline)

-- The outcome of a signal.
pub data Signalled (sender id : ℕ) (signal : Text) (db : Db) (o : Result (Unit {0}) × List Effect)
    : Type 0 where
  passed :
      (c : Call) (other : ℕ)
      → lookup id db.calls ≡ some c
      → ((sender ≡ c.callee_id) × (other ≡ c.caller_id))
        ⊎ ((sender ≡ c.caller_id) × (other ≡ c.callee_id))
      → o ≡ (ok tt, send_to_user other (call_signal id sender signal) ∷ [])
      → Signalled sender id signal db o
  stopped :
      (e : CallError)
      → ((c : Call) → lookup id db.calls ≡ some c → takes_part sender c ≡ false)
      → o ≡ (err e, [])
      → Signalled sender id signal db o

-- A signal of a party of the call goes to the other party and to nobody else; a signal for a call that is not there,
-- or from a user who is no party of it, goes to nobody and is answered with an error.
pub handle_signal-Signalled :
    (sender id : ℕ) (signal : Text) (db : Db)
    → Signalled sender id signal db (handle_signal sender id signal db)
unfolding handle_signal
handle_signal-Signalled sender id signal db = elim (Option-cases (lookup id db.calls)) [
  | inl missing ↦
      stopped call_not_found (λ c at. absurd (ground arith)) (rw (missing, handle_signal) refl)
  | inr (c, found) ↦ elim (Bool-cases (takes_part sender c)) [
    | inr refuses ↦
        stopped not_participant (λ b at. ground arith) (rw (found, refuses, handle_signal) refl)
    | inl party ↦ elim (Bool-cases (sender == c.callee_id)) [
      | inl callee ↦
          passed c c.caller_id found (inl (ground arith, refl))
            (rw (found, party, callee, handle_signal) refl)
      | inr caller ↦
          passed c c.callee_id found (inr (ground arith, refl))
            (rw (found, party, caller, handle_signal) refl)
    ]
  ]
]
