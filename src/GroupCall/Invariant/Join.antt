-- ===== src/GroupCall/Invariant/Join.antt =====
-- Joining, approving, rejecting and losing the socket keep a session well-formed.
use link_up_server.Base.{
  ℕ, ◌≡◌, ◌≢◌, refl, Bool, true, false, Option, none, some, [], ◌∷◌, arith, has, add, has_key,
  insert, ◌==◌, has-add, lookup-insert, lookup-erase, length, ltb, if◌then◌else◌, Bool-cases, inl,
  inr,
}
use link_up_server.GroupCall.Session.{GroupCallSession}
use link_up_server.GroupCall.Join.{
  enter, welcome, admit, request_join, approve_join, reject_join, mark,
}
use link_up_server.GroupCall.Invariant.Session.{IsValid, IsValidAfter}

add-ne-nil : (u : ℕ) (s : _) → s ≢ [] → add u s ≢ []
unfolding add
add-ne-nil u s h = ground arith

-- Who enters a call that can still expire makes it two, unless it is the creator again.
enter_lone :
    (u c : ℕ) (e : Option ℕ) (s : _)
    → (e ≢ none → s ≡ c ∷ [])
    → (if ltb 1 (length (add u s)) then none else e) ≢ none
    → add u s ≡ c ∷ []
unfolding add has
enter_lone u c none s h k = ground arith
enter_lone u c (some t) s h k = ground (arith, h)

pub enter-IsValid :
    (u now : ℕ) {s : GroupCallSession}
    → IsValid s
    → has u s.participants ≡ true
    → IsValid (enter u now s)
unfolding enter
enter-IsValid u now {s} v p = record {
  joined_participant = λ x h. ground (arith, has-add u x s.joined, v.joined_participant x);
  active_joined = λ x h. ground (arith, has-add u x s.joined, v.active_joined x);
  gone_joined = λ x h.
      ground (arith, has-add u x s.joined, lookup-erase x u s.disconnected_at, v.gone_joined x);
  pending_outside = v.pending_outside;
  caller_participant = v.caller_participant;
  occupied = add-ne-nil u s.joined v.occupied;
  lone = enter_lone u s.caller_id s.expires_at s.joined v.lone;
}

enter-call_id : (u now : ℕ) (s : GroupCallSession) → (enter u now s).call_id ≡ s.call_id
unfolding enter
enter-call_id u now s = refl

enter-chat_id : (u now : ℕ) (s : GroupCallSession) → (enter u now s).chat_id ≡ s.chat_id
unfolding enter
enter-chat_id u now s = refl

admit-call_id : (u now : ℕ) (s : GroupCallSession) → (admit u now s).call_id ≡ s.call_id
unfolding admit
admit-call_id u now s = refl

admit-chat_id : (u now : ℕ) (s : GroupCallSession) → (admit u now s).chat_id ≡ s.chat_id
unfolding admit
admit-chat_id u now s = refl

welcome-IsValid : (u : ℕ) {s : GroupCallSession} → IsValid s → IsValid (welcome u s)
unfolding welcome
welcome-IsValid u {s} v = record {
  joined_participant = λ x h. ground (arith, has-add u x s.participants, v.joined_participant x);
  active_joined = v.active_joined;
  gone_joined = v.gone_joined;
  pending_outside = λ x h.
      ground (
        arith,
        lookup-erase x u s.pending_requests,
        has-add u x s.participants,
        v.pending_outside x,
      );
  caller_participant = ground (arith, has-add u s.caller_id s.participants, v.caller_participant);
  occupied = v.occupied;
  lone = v.lone;
}

pub admit-IsValid : (u now : ℕ) {s : GroupCallSession} → IsValid s → IsValid (admit u now s)
unfolding admit
admit-IsValid u now {s} v =
    enter-IsValid u now {s = welcome u s} (welcome-IsValid u v)
      (ground (arith, has-add u u s.participants))

-- A user who is no participant becomes a pending request.
ask-IsValid :
    (u now : ℕ) {s : GroupCallSession}
    → IsValid s
    → has u s.participants ≡ false
    → IsValid (record s { pending_requests = insert u now s.pending_requests; last_activity = now })
ask-IsValid u now {s} v out = record {
  joined_participant = v.joined_participant;
  active_joined = v.active_joined;
  gone_joined = v.gone_joined;
  pending_outside =
      λ x h. ground (arith, lookup-insert x u now s.pending_requests, v.pending_outside x);
  caller_participant = v.caller_participant;
  occupied = v.occupied;
  lone = v.lone;
}

pub request_join-IsValidAfter :
    (u now : ℕ) {s : GroupCallSession} → IsValid s → IsValidAfter s (request_join u now s).session
unfolding request_join
request_join-IsValidAfter u now {s} v = elim (Bool-cases (has u s.participants)) [
  | inl p ↦ rw p (enter-IsValid u now v p, enter-call_id u now s, enter-chat_id u now s)
  | inr p ↦ rw p (ask-IsValid u now v p, refl, refl)
]

pub approve_join-IsValidAfter :
    (creator u now : ℕ) (store : Bool) {s : GroupCallSession}
    → IsValid s
    → IsValidAfter s (approve_join creator u now store s).session
unfolding approve_join
approve_join-IsValidAfter creator u now store {s} v = elim (Bool-cases (s.caller_id == creator)) [
  | inl mine ↦ elim (Bool-cases (has_key u s.pending_requests)) [
    | inl asked ↦
        rw (mine, asked) (admit-IsValid u now v, admit-call_id u now s, admit-chat_id u now s)
    | inr none_asked ↦ rw (mine, none_asked) (v, refl, refl)
  ]
  | inr other ↦ rw other (v, refl, refl)
]

pub reject_join-IsValidAfter :
    (creator u : ℕ) {s : GroupCallSession}
    → IsValid s
    → IsValidAfter s (reject_join creator u s).session
unfolding reject_join
reject_join-IsValidAfter creator u {s} v = elim (Bool-cases (s.caller_id == creator)) [
  | inr other ↦ rw other (v, refl, refl)
  | inl mine ↦ rw mine (
    record {
      joined_participant = v.joined_participant;
      active_joined = v.active_joined;
      gone_joined = v.gone_joined;
      pending_outside =
          λ x h. ground (arith, lookup-erase x u s.pending_requests, v.pending_outside x);
      caller_participant = v.caller_participant;
      occupied = v.occupied;
      lone = v.lone;
    },
    refl,
    refl,
  )
]

pub mark-IsValidAfter :
    (u now : ℕ) {s : GroupCallSession} → IsValid s → IsValidAfter s (mark u now s).session
unfolding mark
mark-IsValidAfter u now {s} v = elim (Bool-cases (has u s.joined)) [
  | inr absent ↦ rw absent (v, refl, refl)
  | inl present ↦ rw present (
    record {
      joined_participant = v.joined_participant;
      active_joined = v.active_joined;
      gone_joined = λ x h. ground (arith, lookup-insert x u now s.disconnected_at, v.gone_joined x);
      pending_outside = v.pending_outside;
      caller_participant = v.caller_participant;
      occupied = v.occupied;
      lone = v.lone;
    },
    refl,
    refl,
  )
]
