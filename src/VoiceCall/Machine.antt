-- ===== src/VoiceCall/Machine.antt =====
-- services/voice_call.service.go: the operations on calls as commands, and what answers write. A
-- command is a whole request. EndCall, the toggles and the end of InitiateCall read a row and update
-- it by its id in a later statement; a command stands for a run in which nobody else writes that row
-- in between (what others do to other rows makes no difference to it). `Races` has such a write.
use link_up_server.Base.{
  ℕ, ◌≡◌, ◌≢◌, inl, inr, refl, Bool, true, ◌&&◌, none, some, arith, lookup, insert, Dict, ◌==◌,
  Bool-cases, Option-cases,
}
use link_up_server.Text.{Text}
use link_up_server.VoiceCall.Call.{Call, busy, is_active, is_waiting, is_over}
use link_up_server.VoiceCall.Table.{
  Db, count_active, update_call, update_status, answer_atomic, accepted, declined,
  accept_call_atomic, reject_call_atomic, takes_part, ok, err, Result,
}
use link_up_server.VoiceCall.Service.{
  Env, initiate_call, announce, accept_call, reject_call, check_end, write_end, end_call,
  cleanup_disconnected_calls, toggle_mute, toggle_video, hide_call_from_history,
  mark_missed_as_read,
}
use link_up_server.VoiceCall.Row.{
  RowIsValid, Evolves, accepted-Evolves, declined-Evolves, finished, finished-Evolves,
}

pub data Command : Type 0 where
  initiate : ℕ → ℕ → ℕ → Text → Command
  accept : ℕ → ℕ → Command
  reject : ℕ → ℕ → Command
  end_it : ℕ → ℕ → Command
  cleanup : ℕ → Command
  mute : ℕ → ℕ → Bool → Command
  set_video : ℕ → ℕ → Bool → Command
  hide : ℕ → ℕ → Command
  mark_read : ℕ → Command

unfoldable pub step : Env → ℕ → Command → Db → Db
step env now (initiate uuid caller callee t) db = (initiate_call env uuid now caller callee t db).1
step env now (accept user id) db = (accept_call now user id db).1
step env now (reject user id) db = (reject_call now user id db).1
step env now (end_it user id) db = (end_call env now user id db).1
step env now (cleanup user) db = (cleanup_disconnected_calls env now user db).1
step env now (mute user id b) db = (toggle_mute user id b db).1
step env now (set_video user id b) db = (toggle_video user id b db).1
step env now (hide user id) db = (hide_call_from_history user id db).1
step env now (mark_read user) db = (mark_missed_as_read user now db).1

abbrev pub IsFresh : Command → Dict Call → Type 0
IsFresh (initiate uuid caller callee t) d = lookup uuid d ≡ none
IsFresh _ d = Unit

-- One write to the table.
pub data Write (d d' : Dict Call) : Type 0 where
  unchanged : d' ≡ d → Write d d'
  updated :
      (id : ℕ) (c c' : Call)
      → lookup id d ≡ some c
      → (c.status ≢ busy → Evolves c c')
      → d' ≡ insert id c' d
      → Write d d'
  created :
      (c : Call)
      → RowIsValid c
      → is_active c.status ≡ true
      → count_active c.callee_id d ≡ 0
      → lookup c.id d ≡ none
      → d' ≡ insert c.id c d
      → Write d d'

answer-Write :
    (f : Call → Call) (id user : ℕ) (db : Db)
    → ((c : Call) → is_waiting c.status ≡ true → Evolves c (f c))
    → Write db.calls (answer_atomic f id user db).1.calls
unfolding answer_atomic
answer-Write f id user db e = elim (Option-cases (lookup id db.calls)) [
  | inl missing ↦ rw (missing, answer_atomic) (unchanged refl)
  | inr (c, found) ↦ elim (Bool-cases (c.callee_id == user && is_waiting c.status)) [
    | inr refused ↦ rw (found, refused, answer_atomic) (unchanged refl)
    | inl waits ↦
        rw (found, waits, answer_atomic) (updated id c (f c) found (λ _. e c (ground arith)) refl)
  ]
]

announce-db : (p : _) (r : Result Call) (db : Db) → (announce p (r, db)).1 ≡ db
announce-db p (ok c) db = refl
announce-db p (err e) db = refl

pub accept-Write : (now user id : ℕ) (db : Db) → Write db.calls (accept_call now user id db).1.calls
unfolding accept_call accept_call_atomic
accept-Write now user id db =
    rw
      (announce-db _ (answer_atomic (accepted now) id user db).0
        (answer_atomic (accepted now) id user db).1)
      (answer-Write (accepted now) id user db (accepted-Evolves now))

pub reject-Write : (now user id : ℕ) (db : Db) → Write db.calls (reject_call now user id db).1.calls
unfolding reject_call reject_call_atomic
reject-Write now user id db =
    rw
      (announce-db _ (answer_atomic (declined now) id user db).0
        (answer_atomic (declined now) id user db).1)
      (answer-Write (declined now) id user db (declined-Evolves now))

pub end-Write :
    (env : Env) (now user id : ℕ) (db : Db) → Write db.calls (end_call env now user id db).1.calls
unfolding end_call check_end write_end update_status update_call
end-Write env now user id db = elim (Option-cases (lookup id db.calls)) [
  | inl missing ↦ rw (missing, end_call) (unchanged refl)
  | inr (c, found) ↦ elim (Bool-cases (takes_part user c)) [
    | inr stranger ↦ rw (found, stranger, end_call) (unchanged refl)
    | inl party ↦ elim (Bool-cases (is_over c.status)) [
      | inl over ↦ rw (found, party, over, end_call) (unchanged refl)
      | inr going ↦
          rw (found, party, going, end_call)
            (rw (found, update_call)
              (updated id c (finished now user c) found (finished-Evolves now user c going) refl))
    ]
  ]
]
