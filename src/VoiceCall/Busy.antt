-- ===== src/VoiceCall/Busy.antt =====
-- services/voice_call.service.go: the calls in progress of a user, after a lost connection.
use link_up_server.Base.{
  ℕ, suc, ◌-◌, ◌≡◌, inl, inr, refl, Bool, true, false, ◌&&◌, Option, none, some, [], ◌∷◌, arith,
  lookup, insert, Dict, ◌==◌, ltb, Bool-cases, Distinct,
}
use link_up_server.VoiceCall.Call.{Call, is_active, is_over}
use link_up_server.VoiceCall.Table.{
  Db, count_active, find_active, takes_part, later, update_call, update_status, with_status,
}
use link_up_server.VoiceCall.Service.{
  Env, end_call, check_end, write_end, cleanup_disconnected_calls, end_status,
}
use link_up_server.VoiceCall.Row.{finished}
use link_up_server.VoiceCall.Rows.{CallsValid}

-- in progress with the user in it
abbrev pub engages : ℕ → Call → Bool
engages user c = takes_part user c && is_active c.status

count_active-insert :
    (user i : ℕ) (c c' : Call) (d : Dict Call)
    → lookup i d ≡ some c
    → engages user c ≡ true
    → is_active c'.status ≡ false
    → suc (count_active user (insert i c' d)) ≡ count_active user d
unfolding count_active lookup insert
count_active-insert user i c c' [] found on off = absurd (ground arith)
count_active-insert user i c c' ((k, b) ∷ d) found on off = elim (Bool-cases (i == k)) [
  | inl here ↦ ground arith
  | inr other ↦ ground (arith, count_active-insert user i c c' d)
]

-- What the query for a call in progress finds.
abbrev pub Found : ℕ → Dict Call → Option Call → Type 0
Found user d none = count_active user d ≡ 0
Found user d (some c) = (i : ℕ) × (lookup i d ≡ some c) × (engages user c ≡ true)

later-Found :
    (user k : ℕ) (b : Call) (d : Dict Call) (o : Option Call)
    → lookup k d ≡ none
    → engages user b ≡ true
    → Found user d o
    → Found user ((k, b) ∷ d) (later o b)
unfolding lookup
later-Found user k b d none new on f = (k, ground arith, on)
later-Found user k b d (some c) new on (i, found, e) =
    elim (Bool-cases (ltb c.created_at b.created_at)) [
      | inl newer ↦ rw newer (k, ground arith, on)
      | inr older ↦ rw older (i, ground arith, e)
    ]

skipped-Found :
    (user k : ℕ) (b : Call) (d : Dict Call) (o : Option Call)
    → lookup k d ≡ none
    → engages user b ≡ false
    → Found user d o
    → Found user ((k, b) ∷ d) o
unfolding lookup count_active
skipped-Found user k b d none new off f = ground arith
skipped-Found user k b d (some c) new off (i, found, e) = (i, ground arith, e)

find_active-Found : (user : ℕ) (d : Dict Call) → Distinct d → Found user d (find_active user d)
unfolding find_active count_active lookup
find_active-Found user [] h = refl
find_active-Found user ((k, b) ∷ d) h = elim (Bool-cases (engages user b)) [
  | inl on ↦
      rw (on, find_active)
        (later-Found user k b d (find_active user d) h.0 on (find_active-Found user d h.1))
  | inr off ↦
      rw (off, find_active)
        (skipped-Found user k b d (find_active user d) h.0 off (find_active-Found user d h.1))
]

end_call-count :
    (env : Env) (now user : ℕ) (c : Call) (db : Db)
    → lookup c.id db.calls ≡ some c
    → engages user c ≡ true
    → suc (count_active user (end_call env now user c.id db).1.calls) ≡ count_active user db.calls
unfolding end_call check_end write_end update_status update_call with_status end_status
end_call-count env now user c db found on =
    let party : takes_part user c ≡ true = ground arith in
    let going : is_over c.status ≡ false = ground arith in
    rw (found, party, going, end_call)
      (rw (found, update_call)
        (count_active-insert user c.id c (finished now user c) db.calls found on (ground arith)))

cleanup-count_from :
    (env : Env) (now user : ℕ) (db : Db) (o : Option Call)
    → CallsValid db.calls
    → find_active user db.calls ≡ o
    → Found user db.calls o
    → count_active user (cleanup_disconnected_calls env now user db).1.calls
      ≡ count_active user db.calls - 1
unfolding cleanup_disconnected_calls
cleanup-count_from env now user db none v e f = rw (e, cleanup_disconnected_calls) (ground arith)
cleanup-count_from env now user db (some c) v e (i, found, on) =
    rw (e, cleanup_disconnected_calls)
      (ground (arith, v.ids i c found, end_call-count env now user c db, found))

-- In a valid table, the cleanup for a user who lost the connection lowers the number of calls in progress
-- with the user by one, to 0 at least: with two calls in progress, which CreateIfNotBusy lets a caller have, one
-- is left, and the user still counts as busy.
pub cleanup_disconnected_calls-count :
    (env : Env) (now user : ℕ) (db : Db)
    → CallsValid db.calls
    → count_active user (cleanup_disconnected_calls env now user db).1.calls
      ≡ count_active user db.calls - 1
cleanup_disconnected_calls-count env now user db v =
    cleanup-count_from env now user db (find_active user db.calls) v refl
      (find_active-Found user db.calls v.keys)
