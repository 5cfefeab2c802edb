-- ===== src/VoiceCall/Writes.antt =====
-- services/voice_call.service.go: what each command on calls writes to the table.
use link_up_server.Base.{
  ℕ, ◌≡◌, inl, inr, refl, Bool, true, false, Option, none, some, List, arith, lookup, insert,
  lookup-insert, Dict, ◌==◌, ltb, Bool-cases, Option-cases,
}
use link_up_server.Text.{Text}
use link_up_server.VoiceCall.Call.{Call, calling, missed, is_connected, is_video, parse_call_type}
use link_up_server.VoiceCall.Table.{
  Db, count_active, create_if_not_busy, with_status, update_call, update_status, update_muted,
  update_video_enabled, update_flags, bool_or, find_active, hide_call, mark_missed_read, Result,
}
use link_up_server.VoiceCall.Service.{
  Env, new_call, ring, initiate_call, cleanup_disconnected_calls, toggle_mute, toggle_video,
  hide_call_from_history, mark_missed_as_read, by_side, toggled, Message,
}
use link_up_server.VoiceCall.Row.{RowIsValid, Evolves, flags-Evolves}
use link_up_server.VoiceCall.Machine.{
  Command, initiate, accept, reject, end_it, cleanup, mute, set_video, hide, mark_read, step,
  IsFresh, Write, unchanged, updated, created, accept-Write, reject-Write, end-Write,
}

-- The three outcomes of a toggle.
by_side-Write :
    {A : Type 0} (user : ℕ) (c : Call) (d : Dict Call) (f : A → Dict Call) (x y z : A)
    → Write d (f x)
    → Write d (f y)
    → Write d (f z)
    → Write d (f (by_side user c x y z))
by_side-Write user c d f x y z p q r = elim (Bool-cases (user == c.caller_id)) [
  | inl caller ↦ rw caller p
  | inr other ↦ elim (Bool-cases (user == c.callee_id)) [
    | inl callee ↦ rw (other, callee) q
    | inr neither ↦ rw (other, neither) r
  ]
]

update-Write :
    (id : ℕ) (f : Call → Call) (db : Db) (c : Call)
    → lookup id db.calls ≡ some c
    → Evolves c (f c)
    → Write db.calls (update_call id f db).1.calls
unfolding update_call
update-Write id f db c found e = rw (found, update_call) (updated id c (f c) found (λ _. e) refl)

flags-Write :
    (given : Bool) (changes : Call → Bool) (f : Call → Call) (id : ℕ) (db : Db) (c : Call)
    → lookup id db.calls ≡ some c
    → Evolves c (f c)
    → Write db.calls (update_flags given changes f id db).1.calls
unfolding update_flags
flags-Write false changes f id db c found e = unchanged refl
flags-Write true changes f id db c found e = elim (Bool-cases (changes c)) [
  | inl new ↦ rw (found, new, update_flags) (updated id c (f c) found (λ _. e) refl)
  | inr same ↦ rw (found, same, update_flags) (unchanged refl)
]

muted-Write :
    (a b : Option Bool) (id : ℕ) (db : Db) (c : Call)
    → lookup id db.calls ≡ some c
    → is_connected c.status ≡ true
    → Write db.calls (update_muted id a b db).1.calls
unfolding update_muted
muted-Write a b id db c found on = flags-Write _ _ _ id db c found (
    flags-Evolves c (bool_or a c.muted_caller) (bool_or b c.muted_callee) c.video_enabled_caller
      c.video_enabled_callee on)

video-Write :
    (a b : Option Bool) (id : ℕ) (db : Db) (c : Call)
    → lookup id db.calls ≡ some c
    → is_connected c.status ≡ true
    → Write db.calls (update_video_enabled id a b db).1.calls
unfolding update_video_enabled
video-Write a b id db c found on = flags-Write _ _ _ id db c found (
    flags-Evolves c c.muted_caller c.muted_callee (bool_or a c.video_enabled_caller)
      (bool_or b c.video_enabled_callee) on)

toggled-calls : (c : Call) (m : Message) (r : Bool × Db) → (toggled c m r).1 ≡ r.1
toggled-calls c m (true, db) = refl
toggled-calls c m (false, db) = refl

toggled-Write :
    (d : Dict Call) (c : Call) (m : Message) (r : Bool × Db)
    → Write d r.1.calls
    → Write d (toggled c m r).1.calls
toggled-Write d c m r w = rw (toggled-calls c m r) w

mute-Write : (user id : ℕ) (b : Bool) (db : Db) → Write db.calls (toggle_mute user id b db).1.calls
unfolding toggle_mute
mute-Write user id b db = elim (Option-cases (lookup id db.calls)) [
  | inl missing ↦ rw (missing, toggle_mute) (unchanged refl)
  | inr (c, found) ↦ elim (Bool-cases (is_connected c.status)) [
    | inr off ↦ rw (found, off, toggle_mute) (unchanged refl)
    | inl on ↦
        rw (found, on, toggle_mute)
          (by_side-Write user c db.calls (λ (o : Result (Unit {0}) × Db × List _). o.1.calls) _ _ _
            (toggled-Write db.calls c _ _ (muted-Write (some b) none id db c found on))
            (toggled-Write db.calls c _ _ (muted-Write none (some b) id db c found on))
            (unchanged refl))
  ]
]

toggle_video-Write :
    (user id : ℕ) (b : Bool) (db : Db) → Write db.calls (toggle_video user id b db).1.calls
unfolding toggle_video
toggle_video-Write user id b db = elim (Option-cases (lookup id db.calls)) [
  | inl missing ↦ rw (missing, toggle_video) (unchanged refl)
  | inr (c, found) ↦ elim (Bool-cases (is_video c.call_type)) [
    | inr voice ↦ rw (found, voice, toggle_video) (unchanged refl)
    | inl video ↦ elim (Bool-cases (is_connected c.status)) [
      | inr off ↦ rw (found, video, off, toggle_video) (unchanged refl)
      | inl on ↦
          rw (found, video, on, toggle_video)
            (by_side-Write user c db.calls (λ (o : Result (Unit {0}) × Db × List _). o.1.calls) _ _
              _ (toggled-Write db.calls c _ _ (video-Write (some b) none id db c found on))
              (toggled-Write db.calls c _ _ (video-Write none (some b) id db c found on))
              (unchanged refl))
    ]
  ]
]

cleanup-Write :
    (env : Env) (now user : ℕ) (db : Db)
    → Write db.calls (cleanup_disconnected_calls env now user db).1.calls
unfolding cleanup_disconnected_calls
cleanup-Write env now user db = elim (Option-cases (find_active user db.calls)) [
  | inl idle ↦ rw (idle, cleanup_disconnected_calls) (unchanged refl)
  | inr (c, found) ↦ rw (found, cleanup_disconnected_calls) (end-Write env now user c.id db)
]

hide-calls : (user id : ℕ) (db : Db) → (hide_call_from_history user id db).1.calls ≡ db.calls
unfolding hide_call_from_history hide_call
hide-calls user id db = ground arith

mark_read-calls : (user now : ℕ) (db : Db) → (mark_missed_as_read user now db).1.calls ≡ db.calls
unfolding mark_missed_as_read mark_missed_read
mark_read-calls user now db = ground arith

-- At most two writes.
pub record Writes (d d' : Dict Call) : Type 0 where
  pub between : Dict Call
  pub first : Write d between
  pub second : Write between d'

once : {d d' : Dict Call} → Write d d' → Writes d d'
once {d} {d'} w = record { between = d'; first = w; second = unchanged refl }

new_call-RowIsValid :
    (uuid now caller callee : ℕ) (t : _)
    → (caller == callee) ≡ false
    → RowIsValid (new_call uuid now caller callee t)
new_call-RowIsValid uuid now caller callee t ne = record {
  parties = ground arith;
  started = refl;
  over = refl;
  lasted = refl;
  stored = λ e. cc;
}

missed-Evolves :
    (now : ℕ) (c : Call)
    → c.status ≡ calling
    → c.started_at ≡ none
    → Evolves c (with_status missed none (some now) 0 c)
unfolding with_status
missed-Evolves now c s k = record {
  same_id = refl;
  same_caller = refl;
  same_callee = refl;
  valid = λ v. record {
    parties = v.parties;
    started = ground (arith, v.started);
    over = refl;
    lasted = ground (arith, v.lasted);
    stored = λ e. cc;
  };
  status = inr (ground arith);
  final = λ o. absurd (ground arith);
}

ring-Write :
    (env : Env) (now : ℕ) (c : Call) (db : Db)
    → lookup c.id db.calls ≡ some c
    → c.status ≡ calling
    → c.started_at ≡ none
    → Write db.calls (ring env now c db).0.calls
unfolding ring update_status
ring-Write env now c db found s k = elim (Bool-cases (env.is_user_online c.callee_id)) [
  | inl online ↦ rw online (unchanged refl)
  | inr offline ↦ rw offline (
      update-Write c.id (with_status missed none (some now) 0) db c found
        (missed-Evolves now c s k))
]

initiate-Writes :
    (env : Env) (uuid now caller callee : ℕ) (t : Text) (db : Db)
    → lookup uuid db.calls ≡ none
    → Writes db.calls (initiate_call env uuid now caller callee t db).1.calls
unfolding initiate_call create_if_not_busy
initiate-Writes env uuid now caller callee t db fresh = elim (Bool-cases (caller == callee)) [
  | inl self ↦ rw self (once (unchanged refl))
  | inr two ↦ elim (Bool-cases (env.is_accepted_friend caller callee)) [
    | inr stranger ↦ rw (two, stranger) (once (unchanged refl))
    | inl friend ↦ elim (Bool-cases (ltb 0 (count_active callee db.calls))) [
      | inl busy_callee ↦ rw (two, friend, busy_callee) (once (unchanged refl))
      | inr free ↦
          let c = new_call uuid now caller callee (parse_call_type t) in
          let db' : Db = record db { calls = insert uuid c db.calls } in
          rw (two, friend, free)
            (record {
              between = db'.calls;
              first =
                  created c (new_call-RowIsValid uuid now caller callee (parse_call_type t) two)
                    refl (ground arith) fresh refl;
              second =
                  ring-Write env now c db' (ground (arith, lookup-insert uuid uuid c db.calls)) refl
                    refl;
            })
    ]
  ]
]

pub step-Writes :
    (env : Env) (now : ℕ) (c : Command) (db : Db)
    → IsFresh c db.calls
    → Writes db.calls (step env now c db).calls
unfolding step
step-Writes env now (initiate uuid caller callee t) db fresh =
    initiate-Writes env uuid now caller callee t db fresh
step-Writes env now (accept user id) db fresh = once (accept-Write now user id db)
step-Writes env now (reject user id) db fresh = once (reject-Write now user id db)
step-Writes env now (end_it user id) db fresh = once (end-Write env now user id db)
step-Writes env now (cleanup user) db fresh = once (cleanup-Write env now user db)
step-Writes env now (mute user id b) db fresh = once (mute-Write user id b db)
step-Writes env now (set_video user id b) db fresh = once (toggle_video-Write user id b db)
step-Writes env now (hide user id) db fresh = once (unchanged (hide-calls user id db))
step-Writes env now (mark_read user) db fresh = once (unchanged (mark_read-calls user now db))
