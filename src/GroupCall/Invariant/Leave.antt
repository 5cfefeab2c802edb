-- ===== src/GroupCall/Invariant/Leave.antt =====
-- Leaving, ending and the media operations keep a session well-formed.
use link_up_server.Base.{
  ℕ, ◌≡◌, ◌≢◌, refl, Bool, true, false, Option, none, [], ◌∷◌, arith, has, add, remove, insert,
  has-add, has-remove, lookup-erase, length, ◌==◌, Bool-cases, inl, inr, IdSet,
}
use link_up_server.GroupCall.Session.{GroupCallSession, Hub, Result, ok, err}
use link_up_server.GroupCall.Leave.{leave, end_call}
use link_up_server.GroupCall.Media.{
  relay_signal, mute_target, is_set_to, switch_muted, set_muted, set_video,
}
use link_up_server.GroupCall.Invariant.Session.{IsValid, IsValidAfter}

-- A set with a member other than `u` is not `u` alone.
pub not_lone :
    (u c : ℕ) (e : Option ℕ) (s : IdSet) {B : Type 0}
    → (e ≢ none → s ≡ c ∷ [])
    → has u s ≡ true
    → (c == u) ≡ false
    → e ≢ none
    → B
unfolding has
not_lone u c e s lone here other timed = ground (arith, lone timed)

-- The part of leaving that removes a user from the joined, the active and the disconnected.
pub leave-IsValid :
    (u : ℕ) {s : GroupCallSession}
    → IsValid s
    → has u s.joined ≡ true
    → (s.caller_id == u) ≡ false
    → remove u s.joined ≢ []
    → IsValid (leave u s)
unfolding leave
leave-IsValid u {s} v here other rest = record {
  joined_participant = λ x h. ground (arith, has-remove u x s.joined, v.joined_participant x);
  active_joined = λ x h.
      ground
        (arith, has-remove u x s.joined, has-remove u x s.active_participants, v.active_joined x);
  gone_joined = λ x h.
      ground (arith, has-remove u x s.joined, lookup-erase x u s.disconnected_at, v.gone_joined x);
  pending_outside = v.pending_outside;
  caller_participant = v.caller_participant;
  occupied = rest;
  lone = λ t. not_lone u s.caller_id s.expires_at s.joined v.lone here other t;
}

pub length_zero : (xs : IdSet) → (length xs == 0) ≡ false → xs ≢ []
length_zero xs h = ground arith

pub end_call-IsValidAfter :
    (u now : ℕ) (h : Hub) {s : GroupCallSession}
    → IsValid s
    → IsValidAfter s (end_call u now h s).session
unfolding end_call
end_call-IsValidAfter u now h {s} v = elim (Bool-cases (has u s.joined)) [
  | inr absent ↦ rw absent (v, refl, refl)
  | inl here ↦ elim (Bool-cases (s.caller_id == u)) [
    | inl creator ↦ rw (here, creator) tt
    | inr other ↦ elim (Bool-cases (length (remove u s.joined) == 0)) [
      | inl last ↦ rw (here, other, last) tt
      | inr stays ↦
          rw (here, other, stays)
            (leave-IsValid u v here other (length_zero (remove u s.joined) stays), refl, refl)
    ]
  ]
]

-- A joined sender becomes active.
activate-IsValid :
    (u now : ℕ) {s : GroupCallSession}
    → IsValid s
    → has u s.joined ≡ true
    → IsValid (record s { active_participants = add u s.active_participants; last_activity = now })
activate-IsValid u now {s} v here = record {
  joined_participant = v.joined_participant;
  active_joined = λ x h. ground (arith, has-add u x s.active_participants, v.active_joined x);
  gone_joined = v.gone_joined;
  pending_outside = v.pending_outside;
  caller_participant = v.caller_participant;
  occupied = v.occupied;
  lone = v.lone;
}

pub relay_signal-IsValidAfter :
    (u target now : ℕ) {s : GroupCallSession}
    → IsValid s
    → IsValidAfter s (relay_signal u target now s).session
unfolding relay_signal
relay_signal-IsValidAfter u target now {s} v = elim (Bool-cases (has u s.joined)) [
  | inl here ↦ ground (arith, activate-IsValid u now v here)
  | inr absent ↦ ground arith
]

same_people-IsValid :
    (m w : _) (now : ℕ) {s : GroupCallSession}
    → IsValid s
    → IsValid (record s { muted = m; video_enabled = w; last_activity = now })
same_people-IsValid m w now {s} v = record {
  joined_participant = v.joined_participant;
  active_joined = v.active_joined;
  gone_joined = v.gone_joined;
  pending_outside = v.pending_outside;
  caller_participant = v.caller_participant;
  occupied = v.occupied;
  lone = v.lone;
}

switch_muted-IsValidAfter :
    (b : Bool) (now : ℕ) {s : GroupCallSession} (r : Result ℕ)
    → IsValid s
    → IsValidAfter s (switch_muted b now s r).session
unfolding switch_muted
switch_muted-IsValidAfter b now {s} (err e) v = (v, refl, refl)
switch_muted-IsValidAfter b now {s} (ok u) v = elim (Bool-cases (is_set_to u b s.muted)) [
  | inl same ↦ rw same (v, refl, refl)
  | inr new ↦ rw new (same_people-IsValid (insert u b s.muted) s.video_enabled now v, refl, refl)
]

pub set_muted-IsValidAfter :
    (actor target : ℕ) (b creator : Bool) (now : ℕ) {s : GroupCallSession}
    → IsValid s
    → IsValidAfter s (set_muted actor target b creator now s).session
unfolding set_muted
set_muted-IsValidAfter actor target b creator now {s} v =
    switch_muted-IsValidAfter b now (mute_target actor target creator s) v

pub set_video-IsValidAfter :
    (u : ℕ) (b : Bool) (now : ℕ) {s : GroupCallSession}
    → IsValid s
    → IsValidAfter s (set_video u b now s).session
unfolding set_video
set_video-IsValidAfter u b now {s} v = elim (Bool-cases (has u s.participants)) [
  | inr absent ↦ rw absent (v, refl, refl)
  | inl present ↦ elim (Bool-cases (is_set_to u b s.video_enabled)) [
    | inl same ↦ rw (present, same) (v, refl, refl)
    | inr new ↦
        rw (present, new)
          (same_people-IsValid s.muted (insert u b s.video_enabled) now v, refl, refl)
  ]
]
