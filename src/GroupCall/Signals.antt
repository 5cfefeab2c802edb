-- ===== src/GroupCall/Signals.antt =====
-- Whom a signal reaches, and who may switch whose microphone.
use link_up_server.Base.{
  ℕ, ◌≡◌, ◌≢◌, ◌⊎◌, inl, inr, ap, ◌∙◌, Bool, true, false, ◌&&◌, some, List, [], ◌∷◌, arith, lookup,
  insert, has, add, has-add, lookup-insert, has-sort_ids, ◌==◌, if◌then◌else◌, Bool-cases,
}
use link_up_server.GroupCall.Session.{GroupCallSession, Result, ok, err}
use link_up_server.GroupCall.Media.{
  others, relay_signal, mute_target, is_set_to, switch_muted, set_muted,
}

has-others : (u x : ℕ) (us : List ℕ) → has x (others u us) ≡ (if x == u then false else has x us)
unfolding others has
has-others u x [] = ground arith
has-others u x (w ∷ us) = ground (arith, has-others u x us)

-- A signal is relayed for a joined participant only, to the joined target that it names, which is
-- another user, or, when it names none, to exactly the other joined users.
pub relay_signal-recipients :
    (sender target now x : ℕ) (s : GroupCallSession) {chat : ℕ} {to : List ℕ}
    → (relay_signal sender target now s).result ≡ ok (chat, to)
    → (has sender s.joined ≡ true)
      × (has sender s.participants ≡ true)
      × (has x to ≡ (
          if x == sender
          then false
          else if target == 0
          then has x s.joined
          else (x == target && has x s.joined)))
unfolding relay_signal has
relay_signal-recipients sender target now x s {chat} {to} e = ground (
  arith,
  has-others sender x s.joined,
  has-sort_ids x (others sender s.joined),
  ap (λ y. has y s.joined) {x = x} {y = target},
)

-- A signal that is refused for its target has marked its sender active all the same.
pub relay_signal-marks :
    (sender target now : ℕ) (s : GroupCallSession)
    → has sender s.participants ≡ true
    → has sender s.joined ≡ true
    → (t : GroupCallSession) × ((relay_signal sender target now s).session ≡ some t)
      × (has sender t.active_participants ≡ true)
unfolding relay_signal
relay_signal-marks sender target now s p j = (
  record s { active_participants = add sender s.active_participants; last_activity = now },
  ground arith,
  ground (arith, has-add sender sender s.active_participants),
)

-- The users whose microphone an actor may switch.
pub record MaySwitch (actor user : ℕ) (by_creator : Bool) (s : GroupCallSession) : Type 0 where
  pub member : has actor s.participants ≡ true
  pub target_member : has user s.participants ≡ true
  pub allowed :
      ((by_creator ≡ false) × (user ≡ actor))
      ⊎ ((by_creator ≡ true) × (s.caller_id ≡ actor) × (user ≢ actor))

mute_target-MaySwitch :
    (actor target : ℕ) (by_creator : Bool) (s : GroupCallSession) {user : ℕ}
    → mute_target actor target by_creator s ≡ ok user
    → MaySwitch actor user by_creator s
unfolding mute_target
mute_target-MaySwitch actor target true s {user} e = ground arith
mute_target-MaySwitch actor target false s {user} e =
    ground (arith, ap (λ y. has y s.participants) {x = user} {y = actor})

switch_muted-changes :
    (b : Bool) (now x : ℕ) (s : GroupCallSession) (r : Result ℕ) {t : GroupCallSession}
    → (switch_muted b now s r).session ≡ some t
    → lookup x t.muted ≢ lookup x s.muted
    → (r ≡ ok x) × (lookup x t.muted ≡ some b)
unfolding switch_muted
switch_muted-changes b now x s (err why) {t} e changed = absurd (changed (ground arith))
switch_muted-changes b now x s (ok user) {t} e changed =
    elim (Bool-cases (is_set_to user b s.muted)) [
      | inl set ↦ absurd (changed (ground arith))
      | inr new ↦
          let m : t.muted ≡ insert user b s.muted = ground arith in
          elim (Bool-cases (x == user)) [
            | inl here ↦
                (ground arith, ap (lookup x) m ∙ (ground (arith, lookup-insert x user b s.muted)))
            | inr elsewhere ↦
                absurd
                  (changed (ap (lookup x) m ∙ (ground (arith, lookup-insert x user b s.muted))))
          ]
    ]

-- A microphone that `SetParticipantMuted` changes gets the wanted state, and it is the actor's own,
-- or another participant's where the actor is the creator and asks as such.
pub set_muted-changes :
    (actor target x now : ℕ) (b by_creator : Bool) (s : GroupCallSession) {t : GroupCallSession}
    → (set_muted actor target b by_creator now s).session ≡ some t
    → lookup x t.muted ≢ lookup x s.muted
    → MaySwitch actor x by_creator s × (lookup x t.muted ≡ some b)
unfolding set_muted
set_muted-changes actor target x now b by_creator s {t} e changed =
    let (user, value) =
      switch_muted-changes b now x s (mute_target actor target by_creator s) e changed in
    (mute_target-MaySwitch actor target by_creator s user, value)
