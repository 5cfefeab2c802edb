-- ===== src/GroupCall/Invariant/Cleanup.antt =====
-- The periodic cleanup keeps each session that it leaves in the map well-formed.
use link_up_server.Base.{
  ap, ℕ, ◌≡◌, ◌≢◌, refl, true, false, Option, none, some, List, [], ◌∷◌, arith, has, remove,
  has_key, has-remove, has-sort_ids, lookup, lookup-erase, length, ◌==◌, Dict, Bool-cases, inl, inr,
  sort_ids, ◌∙◌, sym,
}
use link_up_server.GroupCall.Session.{GroupCallSession, first_connected, first_joined}
use link_up_server.GroupCall.Cleanup.{
  live_requests, forget, successor, with_caller, drop_user, dropped_client, drop_disconnected,
  has_expired, tend, any_ended, sweep_session, is_spared, Dropped,
}
use link_up_server.GroupCall.Invariant.Session.{IsValid, IsValidAfter}
use link_up_server.GroupCall.Invariant.Leave.{not_lone, length_zero}

-- Whoever succeeds is in the list and is connected.
pub first_connected-has :
    (gone : Dict ℕ) (us : List ℕ) {u : ℕ}
    → first_connected gone us ≡ some u
    → (has u us ≡ true) × (has_key u gone ≡ false)
unfolding first_connected has
first_connected-has gone [] e = cc
first_connected-has gone (w ∷ us) {u} e = elim (Bool-cases (has_key w gone)) [
  | inl absent ↦ ground (arith, first_connected-has gone us {u = u})
  | inr present ↦ ground arith
]

pub first_joined-has :
    (s : GroupCallSession) {u : ℕ}
    → first_joined s ≡ some u
    → (has u s.joined ≡ true) × (has_key u s.disconnected_at ≡ false)
unfolding first_joined
first_joined-has s {u} e =
    let (listed, connected) = first_connected-has s.disconnected_at (sort_ids s.joined) e in
    (sym (has-sort_ids u s.joined) ∙ listed, connected)

live_requests-has :
    (now u : ℕ) (d : Dict ℕ) → has_key u (live_requests now d) ≡ true → has_key u d ≡ true
unfolding live_requests lookup
live_requests-has now u [] h = h
live_requests-has now u ((w, t) ∷ d) h = ground (arith, live_requests-has now u d)

tended-IsValid :
    (now : ℕ) {s : GroupCallSession}
    → IsValid s
    → IsValid (record s { pending_requests = live_requests now s.pending_requests })
tended-IsValid now {s} v = record {
  joined_participant = v.joined_participant;
  active_joined = v.active_joined;
  gone_joined = v.gone_joined;
  pending_outside = λ x h. v.pending_outside x (live_requests-has now x s.pending_requests h);
  caller_participant = v.caller_participant;
  occupied = v.occupied;
  lone = v.lone;
}

remove_self : (u : ℕ) → remove u (u ∷ []) ≡ []
unfolding remove
remove_self u = ground arith

-- Where somebody stays when `u` goes, there were two, and the call can no longer expire.
not_timed :
    (u : ℕ) {s : GroupCallSession}
    → IsValid s
    → has u s.joined ≡ true
    → remove u s.joined ≢ []
    → s.expires_at ≢ none
    → ⊥
unfolding has
not_timed u {s} v here rest timed = elim (Bool-cases (s.caller_id == u)) [
  | inr other ↦ not_lone u s.caller_id s.expires_at s.joined v.lone here other timed
  | inl creator ↦
      let same : s.caller_id ≡ u = ground arith in
      rest (ap (remove u) (v.lone timed ∙ ap (λ c. c ∷ []) same) ∙ remove_self u)
]

forget-IsValid :
    (u : ℕ) {s : GroupCallSession}
    → IsValid s
    → has u s.joined ≡ true
    → remove u s.joined ≢ []
    → IsValid (forget u s)
unfolding forget
forget-IsValid u {s} v here rest = record {
  joined_participant = λ x h. ground (arith, has-remove u x s.joined, v.joined_participant x);
  active_joined = λ x h.
      ground
        (arith, has-remove u x s.joined, has-remove u x s.active_participants, v.active_joined x);
  gone_joined = λ x h.
      ground (arith, has-remove u x s.joined, lookup-erase x u s.disconnected_at, v.gone_joined x);
  pending_outside = v.pending_outside;
  caller_participant = v.caller_participant;
  occupied = rest;
  lone = λ timed. absurd (not_timed u v here rest timed);
}

with_caller-IsValid :
    (c : Option ℕ) {s : GroupCallSession}
    → IsValid s
    → (s.expires_at ≢ none → ⊥)
    → ((u : ℕ) → c ≡ some u → has u s.joined ≡ true)
    → IsValid (with_caller c s)
with_caller-IsValid none v untimed chosen = v
with_caller-IsValid (some u) {s} v untimed chosen = record {
  joined_participant = v.joined_participant;
  active_joined = v.active_joined;
  gone_joined = v.gone_joined;
  pending_outside = v.pending_outside;
  caller_participant = v.joined_participant u (chosen u refl);
  occupied = v.occupied;
  lone = λ timed. absurd (untimed timed);
}

-- The successor is joined and connected.
pub successor-has :
    (u : ℕ) (s : GroupCallSession) {c : ℕ}
    → successor u s ≡ some c
    → (has c s.joined ≡ true) × (has_key c s.disconnected_at ≡ false)
unfolding successor
successor-has u s {c} e = elim (Bool-cases (s.caller_id == u)) [
  | inl creator ↦ first_joined-has s (ground arith)
  | inr other ↦ ground arith
]

with_caller_ids :
    (c : Option ℕ) (s : GroupCallSession)
    → ((with_caller c s).call_id ≡ s.call_id)
      × ((with_caller c s).chat_id ≡ s.chat_id)
      × ((with_caller c s).joined ≡ s.joined)
with_caller_ids none s = (refl, refl, refl)
with_caller_ids (some u) s = (refl, refl, refl)

pub drop_user_ids :
    (u : ℕ) (s : GroupCallSession)
    → ((drop_user u s).call_id ≡ s.call_id)
      × ((drop_user u s).chat_id ≡ s.chat_id)
      × ((drop_user u s).joined ≡ remove u s.joined)
unfolding drop_user
drop_user_ids u s = with_caller_ids (successor u (forget u s)) (forget u s)

pub drop_user-IsValid :
    (u : ℕ) {s : GroupCallSession}
    → IsValid s
    → has u s.joined ≡ true
    → (drop_user u s).joined ≢ []
    → IsValid (drop_user u s)
unfolding drop_user
drop_user-IsValid u {s} v here stays =
    with_caller-IsValid (successor u (forget u s)) {s = forget u s} (forget-IsValid u v here rest)
      (not_timed u v here rest) (λ c e. (successor-has u (forget u s) e).0)
  where
    rest : remove u s.joined ≢ []
    rest e = stays ((drop_user_ids u s).2 ∙ e)

pub spared_not_has :
    (now u t : ℕ) (s : GroupCallSession)
    → is_spared now u t s ≡ false
    → has_key u s.disconnected_at ≡ true
unfolding is_spared
spared_not_has now u t s due = ground arith

pub any_ended-cons :
    (d : Dropped) (ds : List Dropped)
    → d.ended ≡ false
    → any_ended (d ∷ ds) ≡ false
    → any_ended ds ≡ false
any_ended-cons d ds e h = ground arith

-- The loop leaves a well-formed session of the same call, unless it reports that the call ended.
abbrev Survives : GroupCallSession → GroupCallSession × List Dropped → Type 0
Survives s (s', ds) = any_ended ds ≡ false → IsValidAfter s (some s')

drop_disconnected-Survives :
    (now : ℕ) (d : Dict ℕ) {s : GroupCallSession}
    → IsValid s
    → Survives s (drop_disconnected now d s)
unfolding drop_disconnected
drop_disconnected-Survives now [] v = λ going. (v, refl, refl)
drop_disconnected-Survives now ((u, t) ∷ d) {s} v = elim (Bool-cases (is_spared now u t s)) [
  | inl spared ↦ rw (spared, drop_disconnected) (drop_disconnected-Survives now d v)
  | inr due ↦ elim (Bool-cases (length (drop_user u s).joined == 0)) [
    | inl over ↦ rw (due, over, drop_disconnected) (λ e. cc)
    | inr stays ↦
        rw (due, stays, drop_disconnected)
          (let stay = length_zero (drop_user u s).joined stays in
            let here = v.gone_joined u (spared_not_has now u t s due) in
            let ids = drop_user_ids u s in
            λ going.
              let (w, call, chat) =
                drop_disconnected-Survives now d (drop_user-IsValid u v here stay) (
                  any_ended-cons (dropped_client u s) (drop_disconnected now d (drop_user u s)).1
                    stays going) in
              (w, call ∙ ids.0, chat ∙ ids.1))
  ]
]

pub sweep_session-IsValidAfter :
    (now : ℕ) {s : GroupCallSession} → IsValid s → IsValidAfter s (sweep_session now s)
unfolding sweep_session
sweep_session-IsValidAfter now {s} v = elim (Bool-cases (has_expired now s)) [
  | inl old ↦ rw old tt
  | inr fresh ↦
      let ds = (tend now s).1 in
      elim (Bool-cases (any_ended ds)) [
        | inl over ↦ rw (fresh, over) tt
        | inr going ↦
            rw (fresh, going)
              (drop_disconnected-Survives now s.disconnected_at (tended-IsValid now v) going)
      ]
]
