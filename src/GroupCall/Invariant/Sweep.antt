-- ===== src/GroupCall/Invariant/Sweep.antt =====
-- The loop of CleanupStaleCalls over all sessions acts on each by itself.
use link_up_server.Base.{
  subst, sym, ◌∙◌, ℕ, ◌≡◌, refl, Option, none, some, [], ◌∷◌, arith, lookup, Dict, Option-cases,
  inl, inr, Distinct,
}
use link_up_server.GroupCall.Session.{GroupCallSession, Hub}
use link_up_server.GroupCall.Cleanup.{sweep_session, sweep, cleanup_stale_calls}
use link_up_server.GroupCall.Invariant.Session.{IsValid, IsValidAfter}
use link_up_server.GroupCall.Invariant.Cleanup.{sweep_session-IsValidAfter}
use link_up_server.GroupCall.Invariant.Hub.{HubIsValid}

abbrev pub and_then :
    Option GroupCallSession → (GroupCallSession → Option GroupCallSession) → Option GroupCallSession
and_then none f = none
and_then (some s) f = f s

sweep_absent :
    (now id : ℕ) (d : Dict GroupCallSession) → lookup id d ≡ none → lookup id (sweep now d) ≡ none
unfolding sweep lookup
sweep_absent now id [] h = refl
sweep_absent now id ((j, s) ∷ d) h = ground (arith, sweep_absent now id d)

pub lookup-sweep :
    (now id : ℕ) (d : Dict GroupCallSession)
    → Distinct d
    → lookup id (sweep now d) ≡ and_then (lookup id d) (sweep_session now)
unfolding sweep lookup
lookup-sweep now id [] h = refl
lookup-sweep now id ((j, s) ∷ d) h =
    ground (arith, lookup-sweep now id d h.1, sweep_absent now j d h.0)

sweep-Distinct : (now : ℕ) (d : Dict GroupCallSession) → Distinct d → Distinct (sweep now d)
unfolding sweep
sweep-Distinct now [] h = tt
sweep-Distinct now ((j, s) ∷ d) h =
    ground (arith, sweep-Distinct now d h.1, sweep_absent now j d h.0)

-- What is left of a call after the sweep comes from the session that stood there.
sweep_source :
    (now id : ℕ) {h : Hub} {t : GroupCallSession}
    → HubIsValid h
    → lookup id (sweep now h.group_calls) ≡ some t
    → (s : GroupCallSession) × (lookup id h.group_calls ≡ some s)
      × IsValid t
      × (t.call_id ≡ s.call_id)
      × (t.chat_id ≡ s.chat_id)
sweep_source now id {h} {t} v e = elim (Option-cases (lookup id h.group_calls)) [
  | inl missing ↦ absurd (ground (arith, law, missing))
  | inr (s, found) ↦
      let left : sweep_session now s ≡ some t = ground (arith, law, found) in
      let (valid, call, chat) =
        subst (IsValidAfter s) left (sweep_session-IsValidAfter now (v.sessions id s found).0) in
      (s, found, valid, call, chat)
]
  where
    law :
        lookup id (sweep now h.group_calls) ≡ and_then (lookup id h.group_calls) (sweep_session now)
    law = lookup-sweep now id h.group_calls v.keys

pub cleanup_stale_calls-HubIsValid :
    (now : ℕ) {h : Hub} → HubIsValid h → HubIsValid (cleanup_stale_calls now h).0
unfolding cleanup_stale_calls
cleanup_stale_calls-HubIsValid now {h} v = record {
  keys = sweep-Distinct now h.group_calls v.keys;
  sessions = λ id t e.
      let (s, found, valid, call, chat) = sweep_source now id v e in
      (valid, call ∙ (v.sessions id s found).1);
  one_per_chat = λ i j t u e f same_chat.
      let (s, found, _, _, chat) = sweep_source now i v e in
      let (s', found', _, _, chat') = sweep_source now j v f in
      v.one_per_chat i j s s' found found' (sym chat ∙ same_chat ∙ chat');
}
