-- ===== src/GroupCall/Dropping.antt =====
-- What CleanupStaleCalls does to the members of a call that it keeps.
use link_up_server.Base.{
  subst, Distinct, ◌≤◌, ℕ, ◌-◌, ◌<◌, ◌≡◌, ◌≢◌, ◌⊎◌, inl, inr, refl, ◌∙◌, true, false, Option, none,
  some, List, [], ◌∷◌, arith, lookup, erase, has, has_key, has-remove, lookup-erase, ◌==◌, Dict,
  Bool-cases, length,
}
use link_up_server.GroupCall.Session.{GroupCallSession}
use link_up_server.GroupCall.Cleanup.{
  live_requests, forget, successor, with_caller, drop_user, dropped_client, is_spared,
  drop_disconnected, tend, sweep_session, has_expired, any_ended, call_disconnect_grace,
}
use link_up_server.GroupCall.Invariant.Cleanup.{drop_user_ids, any_ended-cons}

pub record Shrinks (s t : GroupCallSession) : Type 0 where
  pub joined : (x : ℕ) → has x t.joined ≡ true → has x s.joined ≡ true
  pub participants : t.participants ≡ s.participants

Shrinks-trans : {s t u : GroupCallSession} → Shrinks s t → Shrinks t u → Shrinks s u
Shrinks-trans p q = record {
  joined = λ x h. p.joined x (q.joined x h);
  participants = q.participants ∙ p.participants;
}

with_caller_participants :
    (c : Option ℕ) (s : GroupCallSession)
    → ((with_caller c s).participants ≡ s.participants)
      × ((with_caller c s).disconnected_at ≡ s.disconnected_at)
with_caller_participants none s = (refl, refl)
with_caller_participants (some u) s = (refl, refl)

drop_user_rest :
    (u : ℕ) (s : GroupCallSession)
    → ((drop_user u s).participants ≡ s.participants)
      × ((drop_user u s).disconnected_at ≡ erase u s.disconnected_at)
unfolding drop_user
drop_user_rest u s = with_caller_participants (successor u (forget u s)) (forget u s)

drop_user-Shrinks : (u : ℕ) (s : GroupCallSession) → Shrinks s (drop_user u s)
drop_user-Shrinks u s = record {
  joined = λ x h. ground (arith, (drop_user_ids u s).2, has-remove u x s.joined);
  participants = (drop_user_rest u s).0;
}

pub drop_disconnected-Shrinks :
    (now : ℕ) (d : Dict ℕ) (s : GroupCallSession) → Shrinks s (drop_disconnected now d s).0
unfolding drop_disconnected
drop_disconnected-Shrinks now [] s = record { joined = λ x h. h; participants = refl }
drop_disconnected-Shrinks now ((u, t) ∷ d) s = elim (Bool-cases (is_spared now u t s)) [
  | inl spared ↦ rw (spared, drop_disconnected) (drop_disconnected-Shrinks now d s)
  | inr due ↦ elim (Bool-cases (length (drop_user u s).joined == 0)) [
    | inl over ↦ rw (due, over, drop_disconnected) (drop_user-Shrinks u s)
    | inr stays ↦
        rw (due, stays, drop_disconnected)
          (Shrinks-trans {s = s} {t = drop_user u s} (drop_user-Shrinks u s)
            (drop_disconnected-Shrinks now d (drop_user u s)))
  ]
]

tend-Shrinks : (now : ℕ) (s : GroupCallSession) → Shrinks s (tend now s).0
unfolding tend
tend-Shrinks now s =
    let q =
      drop_disconnected-Shrinks now s.disconnected_at
        (record s { pending_requests = live_requests now s.pending_requests }) in
    record { joined = q.joined; participants = q.participants }

sweep_session-tend :
    (now : ℕ) (s : GroupCallSession) {t : GroupCallSession}
    → sweep_session now s ≡ some t
    → ((tend now s).0 ≡ t) × (any_ended (tend now s).1 ≡ false)
unfolding sweep_session
sweep_session-tend now s {t} e = ground arith

-- A sweep that keeps a session only takes joined users away.
pub sweep_session-Shrinks :
    (now : ℕ) (s : GroupCallSession) {t : GroupCallSession}
    → sweep_session now s ≡ some t
    → Shrinks s t
sweep_session-Shrinks now s e =
    subst (Shrinks s) (sweep_session-tend now s e).0 (tend-Shrinks now s)

-- No entry of `x` in the list has outlived its grace.
abbrev Exempts : ℕ → ℕ → Dict ℕ → Type 0
Exempts now x [] = Unit
Exempts now x ((u, t) ∷ d) = (u ≡ x → now - t < call_disconnect_grace) × Exempts now x d

Exempts-absent : (now x : ℕ) (d : Dict ℕ) → lookup x d ≡ none → Exempts now x d
unfolding lookup
Exempts-absent now x [] h = tt
Exempts-absent now x ((u, t) ∷ d) h =
    (λ e. absurd (ground arith), Exempts-absent now x d (ground arith))

Exempts-of_grace :
    (now x : ℕ) (d : Dict ℕ)
    → Distinct d
    → ((t : ℕ) → lookup x d ≡ some t → now - t < call_disconnect_grace)
    → Exempts now x d
unfolding lookup
Exempts-of_grace now x [] k h = tt
Exempts-of_grace now x ((u, t) ∷ d) k h = elim (Bool-cases (x == u)) [
  | inl here ↦
      (λ e. h t (rw here), Exempts-absent now x d (let e : u ≡ x = ground arith in rw (← e) k.0))
  | inr other ↦ (λ e. absurd (ground arith), Exempts-of_grace now x d k.1 (λ w f. h w (rw other f)))
]

drop_user-keeps :
    (u x : ℕ) (s : GroupCallSession)
    → has x s.joined ≡ true
    → u ≢ x
    → has x (drop_user u s).joined ≡ true
drop_user-keeps u x s here other = ground (arith, (drop_user_ids u s).2, has-remove u x s.joined)

has_not_empty : (x : ℕ) (us : List ℕ) → has x us ≡ true → (length us == 0) ≡ false
unfolding has
has_not_empty x [] h = cc
has_not_empty x (u ∷ us) h = ground arith

joined_not_over :
    (x : ℕ) (s : GroupCallSession) → has x s.joined ≡ true → (length s.joined == 0) ≡ false
joined_not_over x s h = has_not_empty x s.joined h

not_spared :
    (now u t : ℕ) (s : GroupCallSession)
    → is_spared now u t s ≡ false
    → now - t < call_disconnect_grace
    → ⊥
unfolding is_spared
not_spared now u t s due young = ground arith

any_ended-cons_false :
    (now u : ℕ) (d : Dict ℕ) (s : GroupCallSession)
    → (length (drop_user u s).joined == 0) ≡ false
    → any_ended (drop_disconnected now d (drop_user u s)).1 ≡ false
    → any_ended (dropped_client u s ∷ (drop_disconnected now d (drop_user u s)).1) ≡ false
any_ended-cons_false now u d s stays rest = rw stays rest

-- A joined user whom the loop spares is still joined, and keeps the call alive.
drop_disconnected-spares :
    (now x : ℕ) (d : Dict ℕ) (s : GroupCallSession)
    → Exempts now x d
    → has x s.joined ≡ true
    → (has x (drop_disconnected now d s).0.joined ≡ true)
      × (any_ended (drop_disconnected now d s).1 ≡ false)
unfolding drop_disconnected
drop_disconnected-spares now x [] s k here = (here, refl)
drop_disconnected-spares now x ((u, t) ∷ d) s k here = elim (Bool-cases (is_spared now u t s)) [
  | inl spared ↦ rw (spared, drop_disconnected) (drop_disconnected-spares now x d s k.1 here)
  | inr due ↦
      let other : u ≢ x = λ e. not_spared now u t s due (k.0 e) in
      let kept = drop_user-keeps u x s here other in
      let stays = joined_not_over x (drop_user u s) kept in
      let rest = drop_disconnected-spares now x d (drop_user u s) k.1 kept in
      rw (due, stays, drop_disconnected) (rest.0, any_ended-cons_false now u d s stays rest.1)
]

-- The head of the list is another user's entry, or the one of `x` and due.
due_head :
    (now x t u w : ℕ) (d : Dict ℕ) (s : GroupCallSession)
    → lookup x ((u, w) ∷ d) ≡ some t
    → call_disconnect_grace ≤ now - t
    → has_key x s.disconnected_at ≡ true
    → ((x ≡ u) × (is_spared now u w s ≡ false)) ⊎ ((x ≢ u) × (lookup x d ≡ some t))
unfolding lookup is_spared
due_head now x t u w d s e old there = elim (Bool-cases (x == u)) [
  | inr other ↦ inr (ground arith, ground arith)
  | inl same ↦
      let y : x ≡ u = ground arith in
      inl
        (y, (let there' = subst (λ k. has_key k s.disconnected_at ≡ true) y there in ground arith))
]

-- Who has been removed stays removed.
dropped_stays :
    (now u : ℕ) (d : Dict ℕ) (s : GroupCallSession)
    → has u (drop_disconnected now d (drop_user u s)).0.joined ≡ false
dropped_stays now u d s =
    elim (Bool-cases (has u (drop_disconnected now d (drop_user u s)).0.joined)) [
      | inr gone ↦ gone
      | inl there ↦
          let before = (drop_disconnected-Shrinks now d (drop_user u s)).joined u there in
          ground (arith, (drop_user_ids u s).2, has-remove u u s.joined)
    ]

-- A user who has outlived the grace is no longer joined, whatever the loop does to the others.
drop_disconnected-drops :
    (now x t : ℕ) (d : Dict ℕ) (s : GroupCallSession)
    → lookup x d ≡ some t
    → call_disconnect_grace ≤ now - t
    → has_key x s.disconnected_at ≡ true
    → any_ended (drop_disconnected now d s).1 ≡ false
    → has x (drop_disconnected now d s).0.joined ≡ false
unfolding drop_disconnected lookup
drop_disconnected-drops now x t [] s e old there = λ going. cc
drop_disconnected-drops now x t ((u, w) ∷ d) s e old there =
    elim (Bool-cases (is_spared now u w s)) [
      | inl spared ↦ elim head [
        | inl (_, due) ↦ absurd (ground arith)
        | inr (_, later) ↦
            rw (spared, drop_disconnected) (drop_disconnected-drops now x t d s later old there)
      ]
      | inr due ↦ elim (Bool-cases (length (drop_user u s).joined == 0)) [
        | inl over ↦ rw (due, over, drop_disconnected) (λ going. cc)
        | inr stays ↦
            rw (due, stays, drop_disconnected)
              λ going. elim head [
                | inl (same, _) ↦ rw same (dropped_stays now u d s)
                | inr (other, later) ↦
                    drop_disconnected-drops now x t d (drop_user u s) later old (still_marked other)
                      (ended_tail stays going)
              ]
      ]
    ]
  where
    head : ((x ≡ u) × (is_spared now u w s ≡ false)) ⊎ ((x ≢ u) × (lookup x d ≡ some t))
    head = due_head now x t u w d s e old there

    still_marked : x ≢ u → has_key x (drop_user u s).disconnected_at ≡ true
    still_marked other = ground (arith, (drop_user_rest u s).1, lookup-erase x u s.disconnected_at)

    ended_tail :
        (length (drop_user u s).joined == 0) ≡ false
        → any_ended (dropped_client u s ∷ (drop_disconnected now d (drop_user u s)).1) ≡ false
        → any_ended (drop_disconnected now d (drop_user u s)).1 ≡ false
    ended_tail stays going =
        any_ended-cons (dropped_client u s) (drop_disconnected now d (drop_user u s)).1 stays going

-- A joined user who is connected, or whose socket was lost less than 15 seconds ago, is still
-- joined after the sweep of a call that has not expired, and the call goes on.
pub sweep_session-spares :
    (now x : ℕ) (s : GroupCallSession)
    → Distinct s.disconnected_at
    → has_expired now s ≡ false
    → has x s.joined ≡ true
    → ((t : ℕ) → lookup x s.disconnected_at ≡ some t → now - t < call_disconnect_grace)
    → (t : GroupCallSession) × (sweep_session now s ≡ some t) × (has x t.joined ≡ true)
unfolding sweep_session tend
sweep_session-spares now x s k fresh here young =
    let (kept, going) =
      drop_disconnected-spares now x s.disconnected_at
        (record s { pending_requests = live_requests now s.pending_requests })
        (Exempts-of_grace now x s.disconnected_at k young) here in
    ((tend now s).0, rw (fresh, going), kept)

-- A user whose socket was lost 15 seconds ago or more is in no session that the sweep keeps.
pub sweep_session-drops :
    (now x t : ℕ) (s s' : GroupCallSession)
    → lookup x s.disconnected_at ≡ some t
    → call_disconnect_grace ≤ now - t
    → sweep_session now s ≡ some s'
    → has x s'.joined ≡ false
unfolding tend
sweep_session-drops now x t s s' e old kept =
    let (same, going) = sweep_session-tend now s kept in
    subst (λ r. has x r.joined ≡ false) same
      (drop_disconnected-drops now x t s.disconnected_at
        (record s { pending_requests = live_requests now s.pending_requests }) e old
        (ground (arith, e)) going)
