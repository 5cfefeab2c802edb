-- ===== src/GroupCall/Membership.antt =====
-- Who can enter a call: the participants and the joined users of a session under each operation
-- of groupws/hub.go.
pub mod Step
use link_up_server.Base.{
  subst, length, ℕ, ◌≡◌, ◌≢◌, ◌⊎◌, inl, inr, refl, sym, ap, ◌∙◌, Bool, true, false, Option, none,
  some, [], ◌∷◌, arith, lookup, insert, erase, has, add, remove, has_key, has-add, has-remove,
  lookup-insert, ◌==◌, Dict, if◌then◌else◌, Bool-cases, Option-cases, Distinct,
}
use link_up_server.GroupCall.Session.{GroupCallSession, Hub, Result, ok, err, Reply, on_session}
use link_up_server.GroupCall.Create.{CreateRequest}
use link_up_server.GroupCall.Join
use link_up_server.GroupCall.Join.{
  enter, welcome, admit, request_join_call, approve_join_call, reject_join_call, mark_disconnected,
}
use link_up_server.GroupCall.Leave
use link_up_server.GroupCall.Leave.{leave, end_call_by_user}
use link_up_server.GroupCall.Media
use link_up_server.GroupCall.Media.{
  relay_signal_targets, mute_target, is_set_to, switch_muted, set_participant_muted,
  set_participant_video,
}
use link_up_server.GroupCall.Machine.{
  Command, create, request_join, approve_join, reject_join, end_call, relay_signal, set_muted,
  set_video, mark, cleanup, step, IsFresh,
}
use link_up_server.GroupCall.Cleanup.{sweep_session, sweep, cleanup_stale_calls}
use link_up_server.GroupCall.Dropping.{sweep_session-Shrinks}
use link_up_server.GroupCall.Invariant.Sweep.{and_then, lookup-sweep}
use link_up_server.GroupCall.Trace.{Came, untouched, touched, on_session-Came}

-- The commands that let user `x` into the call `id`, whose session is `s`.
pub data Lets (id : ℕ) (s : GroupCallSession) (x : ℕ) : Command → Type 0 where
  joins : has x s.participants ≡ true → Lets id s x (request_join x id)
  approves :
      (creator : ℕ)
      → s.caller_id ≡ creator
      → has_key x s.pending_requests ≡ true
      → Lets id s x (approve_join creator x id)

-- Whoever is joined or a participant afterwards was so before, or was let in.
pub record Admits (c : Command) (id : ℕ) (s t : GroupCallSession) : Type 0 where
  pub joined : (x : ℕ) → has x t.joined ≡ true → (has x s.joined ≡ true) ⊎ Lets id s x c
  pub participants :
      (x : ℕ) → has x t.participants ≡ true → (has x s.participants ≡ true) ⊎ Lets id s x c

-- A command that creates the call: its creator is joined, and its participants are the creator and
-- members of the group whom the request names.
pub record Founds (c : Command) (id : ℕ) (t : GroupCallSession) : Type 0 where
  pub request : CreateRequest
  pub seen : Hub
  pub is_create : c ≡ create id request seen
  pub joined : (x : ℕ) → has x t.joined ≡ true → x ≡ request.caller_id
  pub participants :
      (x : ℕ)
      → has x t.participants ≡ true
      → (x ≡ request.caller_id)
        ⊎ ((has x request.participant_ids ≡ true) × (has x request.member_ids ≡ true))

-- Who is in a call after a command, by the call's session before it, if there was one.
abbrev pub AdmitsFrom : Command → ℕ → Option GroupCallSession → GroupCallSession → Type 0
AdmitsFrom c id none t = Founds c id t
AdmitsFrom c id (some s) t = Admits c id s t

abbrev pub AdmitsAfter : Command → ℕ → GroupCallSession → Option GroupCallSession → Type 0
AdmitsAfter c id s none = Unit
AdmitsAfter c id s (some t) = Admits c id s t

abbrev pub KeepsAfter : GroupCallSession → Option GroupCallSession → Type 0
KeepsAfter s none = Unit
KeepsAfter s (some t) = (t.joined ≡ s.joined) × (t.participants ≡ s.participants)

pub keeps_admits :
    (c : Command) (id : ℕ) (s : GroupCallSession) (r : Option GroupCallSession)
    → KeepsAfter s r
    → AdmitsAfter c id s r
keeps_admits c id s none k = tt
keeps_admits c id s (some t) k = record {
  joined = λ x h. inl (rw (← k.0) h);
  participants = λ x h. inl (rw (← k.1) h);
}

pub reject_join-KeepsAfter :
    (creator user : ℕ) (s : GroupCallSession)
    → KeepsAfter s (Join.reject_join creator user s).session
unfolding Join.reject_join
reject_join-KeepsAfter creator user s = ground arith

pub mark-KeepsAfter :
    (user now : ℕ) (s : GroupCallSession) → KeepsAfter s (Join.mark user now s).session
unfolding Join.mark
mark-KeepsAfter user now s = ground arith

pub relay_signal-KeepsAfter :
    (sender target now : ℕ) (s : GroupCallSession)
    → KeepsAfter s (Media.relay_signal sender target now s).session
unfolding Media.relay_signal
relay_signal-KeepsAfter sender target now s = ground arith

switch_muted-KeepsAfter :
    (b : Bool) (now : ℕ) (s : GroupCallSession) (r : Result ℕ)
    → KeepsAfter s (switch_muted b now s r).session
unfolding switch_muted
switch_muted-KeepsAfter b now s (err e) = (refl, refl)
switch_muted-KeepsAfter b now s (ok u) = ground arith

pub set_muted-KeepsAfter :
    (actor target : ℕ) (b creator : Bool) (now : ℕ) (s : GroupCallSession)
    → KeepsAfter s (Media.set_muted actor target b creator now s).session
unfolding Media.set_muted
set_muted-KeepsAfter actor target b creator now s =
    switch_muted-KeepsAfter b now s (mute_target actor target creator s)

pub set_video-KeepsAfter :
    (u : ℕ) (b : Bool) (now : ℕ) (s : GroupCallSession)
    → KeepsAfter s (Media.set_video u b now s).session
unfolding Media.set_video
set_video-KeepsAfter u b now s = ground arith

-- A member of `add u set` is `u` or was there.
added :
    (u x id : ℕ) (set : _) (s : GroupCallSession) (c : Command)
    → Lets id s u c
    → has x (add u set) ≡ true
    → (has x set ≡ true) ⊎ Lets id s x c
added u x id set s c let_in h = elim (Bool-cases (x == u)) [
  | inr other ↦ inl (ground (arith, has-add u x set))
  | inl same ↦ let e : u ≡ x = ground arith in inr (subst (λ y. Lets id s y c) e let_in)
]

pub request_join-AdmitsAfter :
    (user now id : ℕ) (s : GroupCallSession)
    → AdmitsAfter (request_join user id) id s (Join.request_join user now s).session
unfolding Join.request_join enter
request_join-AdmitsAfter user now id s = elim (Bool-cases (has user s.participants)) [
  | inr out ↦ rw out (record { joined = λ x h. inl h; participants = λ x h. inl h })
  | inl invited ↦ rw invited (record {
    joined = λ x h. added user x id s.joined s (request_join user id) (joins invited) h;
    participants = λ x h. inl h;
  })
]

pub approve_join-AdmitsAfter :
    (creator user now id : ℕ) (store : Bool) (s : GroupCallSession)
    → AdmitsAfter
        (approve_join creator user id)
        id
        s
        (Join.approve_join creator user now store s).session
unfolding Join.approve_join admit
approve_join-AdmitsAfter creator user now id store s = elim (Bool-cases (s.caller_id == creator)) [
  | inr other ↦ rw other (record { joined = λ x h. inl h; participants = λ x h. inl h })
  | inl mine ↦ elim (Bool-cases (has_key user s.pending_requests)) [
    | inr none_asked ↦
        rw (mine, none_asked) (record { joined = λ x h. inl h; participants = λ x h. inl h })
    | inl asked ↦
        let c = approve_join creator user id in
        let let_in : Lets id s user c = approves creator (ground arith) asked in
        rw (mine, asked)
          (record {
            joined = λ x h. added user x id s.joined s c let_in h;
            participants = λ x h. added user x id s.participants s c let_in h;
          })
  ]
]

leave-Admits : (c : Command) (user id : ℕ) (s : GroupCallSession) → Admits c id s (leave user s)
unfolding leave
leave-Admits c user id s = record {
  joined = λ x h. inl (ground (arith, has-remove user x s.joined));
  participants = λ x h. inl h;
}

pub end_call-AdmitsAfter :
    (c : Command) (user now id : ℕ) (h : Hub) (s : GroupCallSession)
    → AdmitsAfter c id s (Leave.end_call user now h s).session
unfolding Leave.end_call
end_call-AdmitsAfter c user now id h s =
    ground (arith, leave-Admits c user id s, keeps_admits c id s (some s) (refl, refl))

pub sweep-Admits :
    (c : Command) (id now : ℕ) (s : GroupCallSession) {t : GroupCallSession}
    → sweep_session now s ≡ some t
    → Admits c id s t
sweep-Admits c id now s e =
    let p = sweep_session-Shrinks now s e in
    record {
      joined = λ x h. inl (p.joined x h);
      participants = λ x h. inl (rw (← p.participants) h);
    }

pub of_Came :
    (c : Command) (id i : ℕ) (r : Option GroupCallSession) (s t : GroupCallSession)
    → AdmitsAfter c i s r
    → Came id r i s t
    → Admits c i s t
of_Came c id i r s t after (untouched e) =
    subst (Admits c i s) e (keeps_admits c i s (some s) (refl, refl))
of_Came c id i r s t after (touched here e) = subst (AdmitsAfter c i s) e after
