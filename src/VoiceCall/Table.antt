-- ===== src/VoiceCall/Table.antt =====
-- repository/call.repository.go: the tables, and the queries and updates on them. A table with a
-- primary key is a map; a statement in a transaction is one step, and the database does not fail.
use link_up_server.Base.{
  ℕ, suc, ◌==◌, Bool, true, false, not, ◌&&◌, ◌||◌, Option, none, some, List, [], ◌∷◌,
  if◌then◌else◌, ltb, leb, Dict, lookup, insert, is_some,
}
use link_up_server.VoiceCall.Call.{
  Call, CallStatus, connected, rejected, is_active, is_waiting, is_missed,
}

-- The tables `calls` and `call_hidden`, and `last_read_missed_at` of each row of `profiles`.
pub record Db : Type 0 where
  pub calls : Dict Call
  pub hidden : List (ℕ × ℕ)
  pub last_read : Dict (Option ℕ)

pub data CallError : Type 0 where
  self_call not_friend call_not_found not_waiting not_participant already_ended not_connected
        not_video profile_not_found :
      CallError

pub data Result (A : Type 0) : Type 0 where
  ok : A → Result A
  err : CallError → Result A

abbrev pub takes_part : ℕ → Call → Bool
takes_part user c = c.caller_id == user || c.callee_id == user

-- the number of calls in progress with the user in them
unfoldable pub count_active : ℕ → Dict Call → ℕ
count_active user [] = 0
count_active user ((id, c) ∷ d) =
    let rest = count_active user d in
    if takes_part user c && is_active c.status then suc rest else rest

-- CreateIfNotBusy; the flag says that the callee is busy
unfoldable pub create_if_not_busy : Call → Db → Bool × Db
create_if_not_busy c db =
    if ltb 0 (count_active c.callee_id db.calls)
    then (true, db)
    else (false, record db { calls = insert c.id c db.calls })

abbrev pub find_by_id : ℕ → Db → Option Call
find_by_id id db = lookup id db.calls

abbrev pub or_else : Option ℕ → Option ℕ → Option ℕ
or_else none b = b
or_else (some a) b = some a

-- The columns that UpdateStatus sets.
unfoldable pub with_status : CallStatus → Option ℕ → Option ℕ → ℕ → Call → Call
with_status status started ended_at duration c = record c {
  status = status;
  started_at = or_else started c.started_at;
  ended_at = or_else ended_at c.ended_at;
  duration = if ltb 0 duration then duration else c.duration;
}

-- An UPDATE of the row with the id; the flag says whether there is one.
unfoldable pub update_call : ℕ → (Call → Call) → Db → Bool × Db
update_call id f db = elim (lookup id db.calls) [
  | none ↦ (false, db)
  | some c ↦ (true, record db { calls = insert id (f c) db.calls })
]

unfoldable pub update_status : ℕ → CallStatus → Option ℕ → Option ℕ → ℕ → Db → Bool × Db
update_status id status started ended_at duration =
    update_call id (with_status status started ended_at duration)

-- The conditional UPDATE of AcceptCallAtomic and RejectCallAtomic, and the query that tells why it
-- changed no row.
unfoldable pub answer_atomic : (Call → Call) → ℕ → ℕ → Db → Result Call × Db
answer_atomic f id user db = elim (lookup id db.calls) [
  | none ↦ (err call_not_found, db)
  | some c ↦
      if c.callee_id == user && is_waiting c.status
      then (ok (f c), record db { calls = insert id (f c) db.calls })
      else (err not_waiting, db)
]

abbrev pub accepted : ℕ → Call → Call
accepted now c = record c { status = connected; started_at = some now }

abbrev pub declined : ℕ → Call → Call
declined now c = record c { status = rejected; ended_at = some now }

unfoldable pub accept_call_atomic : ℕ → ℕ → ℕ → Db → Result Call × Db
accept_call_atomic now = answer_atomic (accepted now)

unfoldable pub reject_call_atomic : ℕ → ℕ → ℕ → Db → Result Call × Db
reject_call_atomic now = answer_atomic (declined now)

abbrev pub bool_or : Option Bool → Bool → Bool
bool_or none b = b
bool_or (some a) b = a

-- Whether an update of a flag is given and changes it.
abbrev pub differs : Option Bool → Bool → Bool
differs none b = false
differs (some true) b = not b
differs (some false) b = b

-- An UPDATE of flags. MySQL counts the rows that it changes, so `false` is the answer, and
-- ErrCallNotFound the error, also for a row whose flags are as asked already. An update without
-- flags is no statement, and no error.
unfoldable pub update_flags : Bool → (Call → Bool) → (Call → Call) → ℕ → Db → Bool × Db
update_flags false changes f id db = (true, db)
update_flags true changes f id db = elim (lookup id db.calls) [
  | none ↦ (false, db)
  | some c ↦
      if changes c then (true, record db { calls = insert id (f c) db.calls }) else (false, db)
]

unfoldable pub update_muted : ℕ → Option Bool → Option Bool → Db → Bool × Db
update_muted id caller callee =
    update_flags (is_some caller || is_some callee)
      (λ c. differs caller c.muted_caller || differs callee c.muted_callee)
      (λ c. record c {
        muted_caller = bool_or caller c.muted_caller;
        muted_callee = bool_or callee c.muted_callee;
      })
      id

unfoldable pub update_video_enabled : ℕ → Option Bool → Option Bool → Db → Bool × Db
update_video_enabled id caller callee =
    update_flags (is_some caller || is_some callee)
      (λ c. differs caller c.video_enabled_caller || differs callee c.video_enabled_callee)
      (λ c. record c {
        video_enabled_caller = bool_or caller c.video_enabled_caller;
        video_enabled_callee = bool_or callee c.video_enabled_callee;
      })
      id

abbrev pub later : Option Call → Call → Option Call
later none c = some c
later (some b) c = if ltb b.created_at c.created_at then some c else some b

-- FindActiveByParticipant: ORDER BY created_at DESC, the first
unfoldable pub find_active : ℕ → Dict Call → Option Call
find_active user [] = none
find_active user ((id, c) ∷ d) =
    let rest = find_active user d in
    if takes_part user c && is_active c.status then later rest c else rest

unfoldable pub is_hidden : ℕ → ℕ → List (ℕ × ℕ) → Bool
is_hidden call user [] = false
is_hidden call user ((c, u) ∷ rest) = c == call && u == user || is_hidden call user rest

-- HideCall, with its ON CONFLICT DO NOTHING
unfoldable pub hide_call : ℕ → ℕ → Db → Db
hide_call user call db =
    if is_hidden call user db.hidden then db else record db { hidden = (call, user) ∷ db.hidden }

abbrev pub not_before : Option ℕ → ℕ → Bool
not_before none t = true
not_before (some since) t = leb since t

-- CountMissedSince
unfoldable pub count_missed : ℕ → Option ℕ → List (ℕ × ℕ) → Dict Call → ℕ
count_missed user since hidden [] = 0
count_missed user since hidden ((id, c) ∷ d) =
    let rest = count_missed user since hidden d in
    if c.callee_id == user
      && is_missed c.status
      && not (is_hidden id user hidden)
      && not_before since c.created_at
    then suc rest
    else rest

-- MarkMissedRead
unfoldable pub mark_missed_read : ℕ → ℕ → Db → Result (Unit {0}) × Db
mark_missed_read user now db =
    if is_some (lookup user db.last_read)
    then (ok tt, record db { last_read = insert user (some now) db.last_read })
    else (err profile_not_found, db)
