-- ===== src/GroupCall/Invariant/Hub.antt =====
-- The invariant of all sessions of the hub, kept by every command.
use link_up_server.Base.{
  subst, Distinct, insert-Distinct, erase-Distinct, ℕ, ◌≡◌, ◌⊎◌, sym, ◌∙◌, Option, none, some,
  arith, lookup, insert, erase, lookup-insert, lookup-erase, Dict, Option-cases, inl, inr,
}
use link_up_server.GroupCall.Session.{GroupCallSession, Hub, Reply, commit, on_session}
use link_up_server.GroupCall.Invariant.Session.{IsValid, IsValidAfter}

pub record HubIsValid (h : Hub) : Type 0 where
  pub keys : Distinct h.group_calls
  -- Each session is well-formed and stands under its own id.
  pub sessions :
      (id : ℕ) (s : GroupCallSession)
      → lookup id h.group_calls ≡ some s
      → IsValid s × (s.call_id ≡ id)
  -- No chat has two calls.
  pub one_per_chat :
      (i j : ℕ) (s t : GroupCallSession)
      → lookup i h.group_calls ≡ some s
      → lookup j h.group_calls ≡ some t
      → s.chat_id ≡ t.chat_id
      → i ≡ j

pub lookup-insert_cases :
    {V : Type 0} (j k : ℕ) (v w : V) (d : Dict V)
    → lookup j (insert k v d) ≡ some w
    → ((j ≡ k) × (v ≡ w)) ⊎ (lookup j d ≡ some w)
lookup-insert_cases j k v w d e = ground (arith, lookup-insert j k v d)

lookup-erase-some :
    {V : Type 0} (j k : ℕ) (w : V) (d : Dict V)
    → lookup j (erase k d) ≡ some w
    → lookup j d ≡ some w
lookup-erase-some j k w d e = ground (arith, lookup-erase j k d)

-- Deleting a session keeps the invariant.
erase-HubIsValid :
    (id : ℕ) {h : Hub}
    → HubIsValid h
    → HubIsValid (record h { group_calls = erase id h.group_calls })
erase-HubIsValid id {h} v = record {
  keys = erase-Distinct id h.group_calls v.keys;
  sessions = λ i s e. v.sessions i s (lookup-erase-some i id s h.group_calls e);
  one_per_chat = λ i j s t e f.
      v.one_per_chat i j s t (lookup-erase-some i id s h.group_calls e)
        (lookup-erase-some j id t h.group_calls f);
}

-- Writing a session back keeps it, if the session is well-formed and the same call.
update-HubIsValid :
    (id : ℕ) (s s' : GroupCallSession) {h : Hub}
    → HubIsValid h
    → lookup id h.group_calls ≡ some s
    → IsValidAfter s (some s')
    → HubIsValid (record h { group_calls = insert id s' h.group_calls })
update-HubIsValid id s s' {h} v found (valid, call, chat) = record {
  keys = insert-Distinct id s' h.group_calls v.keys;
  sessions = λ i t e. elim (lookup-insert_cases i id s' t h.group_calls e) [
    | inl (here, same) ↦
        subst (λ x. IsValid x × (x.call_id ≡ i)) same
          (valid, call ∙ (v.sessions id s found).1 ∙ sym here)
    | inr old ↦ v.sessions i t old
  ];
  one_per_chat = λ i j t u e f same_chat.
      let old = lookup-insert_cases i id s' t h.group_calls e in
      let old' = lookup-insert_cases j id s' u h.group_calls f in
      ground (
        arith,
        old,
        old',
        v.one_per_chat id j s u found,
        v.one_per_chat i id t s,
        v.one_per_chat i j t u,
      );
}

commit-HubIsValid :
    (id : ℕ) (s : GroupCallSession) (r : Option GroupCallSession) {h : Hub}
    → HubIsValid h
    → lookup id h.group_calls ≡ some s
    → IsValidAfter s r
    → HubIsValid (commit id r h)
commit-HubIsValid id s none v found after = erase-HubIsValid id v
commit-HubIsValid id s (some s') v found after = update-HubIsValid id s s' v found after

-- An operation on one session keeps the invariant of the hub if it keeps the session's.
pub on_session-HubIsValid :
    {A : Type 0} (id : ℕ) (f : GroupCallSession → Reply A) {h : Hub}
    → ((s : GroupCallSession) → IsValid s → IsValidAfter s (f s).session)
    → HubIsValid h
    → HubIsValid (on_session id f h).1
unfolding on_session
on_session-HubIsValid id f {h} keeps v = elim (Option-cases (lookup id h.group_calls)) [
  | inl missing ↦ rw (missing, on_session) v
  | inr (s, found) ↦
      rw (found, on_session)
        (commit-HubIsValid id s (f s).session v found (keeps s (v.sessions id s found).0))
]
