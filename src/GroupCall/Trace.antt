-- ===== src/GroupCall/Trace.antt =====
-- Where a session comes from that stands in the map after an operation on one session.
use link_up_server.Base.{
  ℕ, ◌≡◌, inl, inr, ◌∙◌, ap, Option, none, some, arith, lookup, lookup-insert, lookup-erase, ◌==◌,
  Option-cases, Bool-cases,
}
use link_up_server.GroupCall.Session.{GroupCallSession, Hub, Reply, commit, on_session}

-- Another call is as it was; the call in question is as `f` left it.
pub data Came (id : ℕ) (f : Option GroupCallSession) (i : ℕ) (s t : GroupCallSession) : Type 0 where
  untouched : s ≡ t → Came id f i s t
  touched : i ≡ id → f ≡ some t → Came id f i s t

commit-Came :
    (id i : ℕ) (r : Option GroupCallSession) (h : Hub) (s : GroupCallSession) {t : GroupCallSession}
    → lookup i h.group_calls ≡ some s
    → lookup i (commit id r h).group_calls ≡ some t
    → Came id r i s t
commit-Came id i none h s {t} before after =
    untouched (ground (arith, lookup-erase i id h.group_calls))
commit-Came id i (some u) h s {t} before after = elim (Bool-cases (i == id)) [
  | inl here ↦ touched (ground arith) (ground (arith, lookup-insert i id u h.group_calls))
  | inr elsewhere ↦ untouched (ground (arith, lookup-insert i id u h.group_calls))
]

pub on_session-Came :
    {A : Type 0} (id i : ℕ) (f : GroupCallSession → Reply A) (h : Hub) (s : GroupCallSession)
    {t : GroupCallSession}
    → lookup i h.group_calls ≡ some s
    → lookup i (on_session id f h).1.group_calls ≡ some t
    → Came id (f s).session i s t
unfolding on_session
on_session-Came {A} id i f h s {t} before after = elim (Option-cases (lookup id h.group_calls)) [
  | inl missing ↦ untouched (ground (arith, missing))
  | inr (u, found) ↦
      moved u found (commit-Came id i (f u).session h s before (rw (found, on_session) at after))
]
  where
    moved :
        (u : GroupCallSession)
        → lookup id h.group_calls ≡ some u
        → Came id (f u).session i s t
        → Came id (f s).session i s t
    moved u found (untouched e) = untouched e
    moved u found (touched here e) =
        let same : s ≡ u = ground (arith, ap (λ k. lookup k h.group_calls) here) in
        touched here (ap (λ x. (f x).session) same ∙ e)

-- No operation on one session adds a call.
pub on_session-absent :
    {A : Type 0} (id i : ℕ) (f : GroupCallSession → Reply A) (h : Hub)
    → lookup i h.group_calls ≡ none
    → lookup i (on_session id f h).1.group_calls ≡ none
unfolding on_session
on_session-absent id i f h absent = elim (Option-cases (lookup id h.group_calls)) [
  | inl missing ↦ rw (missing, on_session) absent
  | inr (u, found) ↦ rw (found, on_session) (committed u found (f u).session)
]
  where
    committed :
        (u : GroupCallSession)
        → lookup id h.group_calls ≡ some u
        → (r : Option GroupCallSession) → lookup i (commit id r h).group_calls ≡ none
    committed u found none = ground (arith, lookup-erase i id h.group_calls)
    committed u found (some v) = elim (Bool-cases (i == id)) [
      | inl here ↦
          let same : i ≡ id = ground arith in
          absurd (ground (arith, ap (λ k. lookup k h.group_calls) same))
      | inr other ↦ ground (arith, lookup-insert i id v h.group_calls)
    ]
