-- ===== src/GroupCall/Ending.antt =====
-- What EndCallByUser does: for the creator, for another member, and what is told and stored.
use link_up_server.Base.{
  ℕ, ◌≡◌, ◌≢◌, inl, inr, refl, ap, ◌∙◌, Bool, true, false, ◌&&◌, Option, none, some, [], ◌∷◌, arith,
  lookup, has, remove, has-remove, has-sort_ids, ◌==◌, Dict, if◌then◌else◌, Bool-cases, IdSet,
  length, ltb, Distinct,
}
use link_up_server.GroupCall.Session.{
  GroupCallSession, Hub, ok, err, not_joined, store_status, ended, cancelled, EndStatus,
  persist_call_end,
}
use link_up_server.GroupCall.Leave.{
  EndCallResult, end_result, leave, end_call, calls_joined_by, list_call_ids_by_user,
}
use link_up_server.GroupCall.Invariant.Session.{IsValid}

-- What is left of the call when `user`, who has joined, ends it: nothing if `user` is its creator
-- or the last one in it; else the same call with the other joined users.
pub data Ends (user : ℕ) (s : GroupCallSession) (r : EndCallResult)
    : Option GroupCallSession → Type 0 where
  by_creator : s.caller_id ≡ user → r.ended ≡ true → Ends user s r none
  by_last :
      s.caller_id ≢ user
      → ((x : ℕ) → has x s.joined ≡ true → x ≡ user)
      → r.ended ≡ true
      → Ends user s r none
  by_member :
      (t : GroupCallSession)
      → s.caller_id ≢ user
      → r.ended ≡ false
      → ((x : ℕ) → has x t.joined ≡ (if x == user then false else has x s.joined))
      → t.caller_id ≡ s.caller_id
      → t.participants ≡ s.participants
      → Ends user s r (some t)

empty_has : (y : ℕ) (ys : IdSet) → (length ys == 0) ≡ true → has y ys ≡ false
unfolding has
empty_has y [] e = refl
empty_has y (z ∷ ys) e = ground arith

no_others : (u x : ℕ) (us : IdSet) → (length (remove u us) == 0) ≡ true → has x us ≡ true → x ≡ u
no_others u x us e h = ground (arith, has-remove u x us, empty_has x (remove u us) e)

-- A joined user always ends the call or leaves it; the outcome is one of the three.
pub end_call-Ends :
    (user now : ℕ) (h : Hub) (s : GroupCallSession)
    → has user s.joined ≡ true
    → (r : EndCallResult) × ((end_call user now h s).result ≡ ok r)
      × Ends user s r (end_call user now h s).session
unfolding end_call leave
end_call-Ends user now h s here = elim (Bool-cases (s.caller_id == user)) [
  | inl mine ↦ rw (here, mine) (end_result true s, refl, by_creator (ground arith) refl)
  | inr other ↦ elim (Bool-cases (length (remove user s.joined) == 0)) [
    | inl last ↦
        rw (here, other, last)
          (
            end_result true (leave user s),
            refl,
            by_last (ground arith) (λ x k. no_others user x s.joined last k) refl,
          )
    | inr stays ↦
        rw (here, other, stays)
          (
            end_result false (leave user s),
            refl,
            by_member (leave user s) (ground arith) refl (λ x. has-remove user x s.joined) refl
                refl,
          )
  ]
]

-- Who has not joined can neither end a call nor change it.
pub end_call-refuses :
    (user now : ℕ) (h : Hub) (s : GroupCallSession)
    → has user s.joined ≡ false
    → ((end_call user now h s).result ≡ err not_joined)
      × ((end_call user now h s).session ≡ some s)
      × ((end_call user now h s).effects ≡ [])
unfolding end_call
end_call-refuses user now h s out = ground arith

-- The status that is stored when a call is over.
abbrev pub end_status : ℕ → GroupCallSession → EndStatus
end_status user s = if s.caller_id == user && ltb 1 (length s.joined) then ended else cancelled

-- A call that a joined user brings to its end is stored as ended only if its creator ends it while
-- somebody else is in it; whenever its last member leaves it is stored as cancelled, however many
-- had joined before.
pub end_call-status :
    (user now : ℕ) (h : Hub) (s : GroupCallSession)
    → h.has_call_store ≡ true
    → has user s.joined ≡ true
    → (end_call user now h s).session ≡ none
    → (end_call user now h s).effects ≡ store_status s.call_id (end_status user s) now ∷ []
unfolding end_call leave persist_call_end
end_call-status user now h s store here over = ground arith

-- Everybody in the call is also in the list of participants that is returned to be notified.
pub end_call-notifies_joined :
    (user now x : ℕ) (h : Hub) (s : GroupCallSession) {r : EndCallResult}
    → IsValid s
    → (end_call user now h s).result ≡ ok r
    → has x r.notify_user_ids ≡ true
    → has x r.notify_participant_ids ≡ true
unfolding end_call leave
end_call-notifies_joined user now x h s {r} v e k = ground (
  arith,
  has-sort_ids x s.joined,
  has-sort_ids x (remove user s.joined),
  has-remove user x s.joined,
  has-sort_ids x s.participants,
  v.joined_participant x,
)

abbrev pub joined_in : ℕ → Option GroupCallSession → Bool
joined_in user none = false
joined_in user (some s) = has user s.joined

calls_joined_by_absent :
    (user id : ℕ) (d : Dict GroupCallSession)
    → lookup id d ≡ none
    → has id (calls_joined_by user d) ≡ false
unfolding calls_joined_by lookup has
calls_joined_by_absent user id [] k = refl
calls_joined_by_absent user id ((j, s) ∷ d) k = ground (arith, calls_joined_by_absent user id d)

has-calls_joined_by :
    (user id : ℕ) (d : Dict GroupCallSession)
    → Distinct d
    → has id (calls_joined_by user d) ≡ joined_in user (lookup id d)
unfolding calls_joined_by lookup has
has-calls_joined_by user id [] k = refl
has-calls_joined_by user id ((j, s) ∷ d) k = ground (
  arith,
  has-calls_joined_by user id d k.1,
  calls_joined_by_absent user j d k.0,
  ap (λ x. has x (calls_joined_by user d)) {x = id} {y = j},
)

-- The calls listed for a user are exactly those in which the user has joined.
pub has-list_call_ids_by_user :
    (user id : ℕ) (h : Hub)
    → Distinct h.group_calls
    → has id (list_call_ids_by_user user h) ≡ joined_in user (lookup id h.group_calls)
unfolding list_call_ids_by_user
has-list_call_ids_by_user user id h k =
    has-sort_ids id (calls_joined_by user h.group_calls)
    ∙ has-calls_joined_by user id h.group_calls k
