-- ===== src/GroupCall/Expiry.antt =====
-- Which calls CleanupStaleCalls ends.
use link_up_server.Base.{
  ℕ, ◌-◌, ◌≤◌, ◌<◌, ◌≡◌, inl, inr, true, false, none, some, [], ◌∷◌, arith, lookup, has, ltb,
  Bool-cases, Option-cases, Distinct,
}
use link_up_server.GroupCall.Session.{GroupCallSession, Hub}
use link_up_server.GroupCall.Cleanup.{
  sweep_session, cleanup_stale_calls, has_expired, call_disconnect_grace,
}
use link_up_server.GroupCall.Invariant.Session.{IsValid}
use link_up_server.GroupCall.Invariant.Hub.{HubIsValid}
use link_up_server.GroupCall.Invariant.Sweep.{lookup-sweep}
use link_up_server.GroupCall.Dropping.{sweep_session-spares}

expired_lone :
    (now : ℕ) (s : GroupCallSession)
    → IsValid s
    → has_expired now s ≡ true
    → s.joined ≡ s.caller_id ∷ []
expired_lone now s v e = v.lone (λ never. ground arith)

-- Why a sweep may end a call.
pub data Reason (now : ℕ) (s : GroupCallSession) : Type 0 where
  stale : has_expired now s ≡ true → s.joined ≡ s.caller_id ∷ [] → Reason now s
  abandoned :
      ((x : ℕ)
        → has x s.joined ≡ true
        → (t : ℕ) × (lookup x s.disconnected_at ≡ some t) × (call_disconnect_grace ≤ now - t))
      → Reason now s

overdue :
    (now x : ℕ) (s : GroupCallSession)
    → Distinct s.disconnected_at
    → has_expired now s ≡ false
    → sweep_session now s ≡ none
    → has x s.joined ≡ true
    → (t : ℕ) × (lookup x s.disconnected_at ≡ some t) × (call_disconnect_grace ≤ now - t)
overdue now x s k fresh swept here = elim (Option-cases (lookup x s.disconnected_at)) [
  | inl connected ↦ absurd (alive (λ t e. absurd (ground arith)))
  | inr (t, e) ↦ elim (Bool-cases (ltb (now - t) call_disconnect_grace)) [
    | inr old ↦ (t, e, ground arith)
    | inl young ↦ absurd (alive (λ w f. ground arith))
  ]
]
  where
    alive : ((t : ℕ) → lookup x s.disconnected_at ≡ some t → now - t < call_disconnect_grace) → ⊥
    alive young = let (t, kept, _) = sweep_session-spares now x s k fresh here young in ground arith

-- A call that the sweep removes has expired with nobody in it but its creator, or every user in it
-- lost their socket 15 seconds ago or more.
pub cleanup_stale_calls-Reason :
    (now id : ℕ) (h : Hub) (s : GroupCallSession)
    → HubIsValid h
    → Distinct s.disconnected_at
    → lookup id h.group_calls ≡ some s
    → lookup id (cleanup_stale_calls now h).0.group_calls ≡ none
    → Reason now s
unfolding cleanup_stale_calls
cleanup_stale_calls-Reason now id h s v k found gone = elim (Bool-cases (has_expired now s)) [
  | inl old ↦ stale old (expired_lone now s (v.sessions id s found).0 old)
  | inr fresh ↦ abandoned (λ x here. overdue now x s k fresh swept here)
]
  where
    swept : sweep_session now s ≡ none
    swept = ground (arith, lookup-sweep now id h.group_calls v.keys)
