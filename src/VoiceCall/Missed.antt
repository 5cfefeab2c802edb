-- ===== src/VoiceCall/Missed.antt =====
-- The counter of missed calls, and the calls hidden from a user's history.
use link_up_server.Base.{
  ℕ, ◌≡◌, ◌<◌, inl, inr, refl, some, List, [], ◌∷◌, arith, if◌then◌else◌, lookup, lookup-insert,
  Dict, ◌==◌, Bool-cases, Option-cases, Distinct,
}
use link_up_server.VoiceCall.Call.{Call}
use link_up_server.VoiceCall.Table.{Db, count_missed, mark_missed_read}
use link_up_server.VoiceCall.Service.{get_missed_call_count, mark_missed_as_read}
use link_up_server.VoiceCall.Rows.{CallsValid}

count_missed-before :
    (user now : ℕ) (hidden : List (ℕ × ℕ)) (d : Dict Call)
    → Distinct d
    → ((i : ℕ) (c : Call) → lookup i d ≡ some c → c.created_at < now)
    → count_missed user (some now) hidden d ≡ 0
unfolding count_missed lookup
count_missed-before user now hidden [] h before = refl
count_missed-before user now hidden ((k, b) ∷ d) h before = ground (
  arith,
  before k b (ground arith),
  count_missed-before user now hidden d h.1 (λ i c found. before i c (ground arith)),
)

-- If every call was made before now, marking the missed calls as read sets the user's number of missed
-- calls to 0 and leaves that of every other user.
pub mark_missed_as_read-count :
    (user now other : ℕ) (db : Db)
    → CallsValid db.calls
    → ((i : ℕ) (c : Call) → lookup i db.calls ≡ some c → c.created_at < now)
    → get_missed_call_count other (mark_missed_as_read user now db).1
      ≡ (if other == user then 0 else get_missed_call_count other db)
unfolding get_missed_call_count mark_missed_as_read mark_missed_read
mark_missed_as_read-count user now other db v before =
    elim (Option-cases (lookup user db.last_read)) [
      | inl missing ↦ rw (missing, mark_missed_as_read) (ground arith)
      | inr (since, found) ↦ rw found (elim (Bool-cases (other == user)) [
        | inl self ↦ rw self (
            rw (lookup-insert other user (some now) db.last_read, self, get_missed_call_count)
              (count_missed-before other now db.hidden db.calls v.keys before))
        | inr apart ↦ rw apart (
            rw (lookup-insert other user (some now) db.last_read, apart, get_missed_call_count)
              refl)
      ])
    ]
