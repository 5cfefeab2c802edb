-- ===== src/GroupCall/Invariant/Create.antt =====
-- A new call is well-formed, and the first of its chat.
use link_up_server.Base.{
  ℕ, ◌≡◌, ◌≢◌, refl, sym, subst, ap, true, false, none, some, [], ◌∷◌, arith, has, lookup, has-add,
  lookup-insert, ◌==◌, Dict, Bool-cases, inl, inr, IdSet, insert-Distinct,
}
use link_up_server.Text.{Text, text_eq, text_eq-eq}
use link_up_server.GroupCall.Session.{GroupCallSession, Hub, ok, err, CallError, Result-cases}
use link_up_server.GroupCall.Create.{
  CreateRequest, video, normal_call_type, chat_has_session, member_set, select_participants,
  new_session, prepare_call, insert_call, store_call,
}
use link_up_server.GroupCall.Invariant.Session.{IsValid}
use link_up_server.GroupCall.Invariant.Hub.{HubIsValid, lookup-insert_cases}

pub new_session-IsValid :
    (uuid now : ℕ) (r : CreateRequest) (t : Text) (chosen : IdSet)
    → IsValid (new_session uuid now r t chosen)
unfolding new_session has lookup
new_session-IsValid uuid now r t chosen = record {
  joined_participant = λ x h. ground (arith, has-add r.caller_id x chosen);
  active_joined = λ x h. cc;
  gone_joined = λ x h. cc;
  pending_outside = λ x h. cc;
  caller_participant = ground (arith, has-add r.caller_id r.caller_id chosen);
  occupied = λ e. cc;
  lone = λ timed. refl;
}

pub chat_has_session-ne :
    (chat i : ℕ) (t : GroupCallSession) (d : Dict GroupCallSession)
    → chat_has_session chat d ≡ false
    → lookup i d ≡ some t
    → t.chat_id ≢ chat
unfolding chat_has_session lookup
chat_has_session-ne chat i t [] h e = cc
chat_has_session-ne chat i t ((j, s) ∷ d) h e = ground (arith, chat_has_session-ne chat i t d)

-- What `prepare_call` has checked when it returns a session.
pub record Prepared (uuid now : ℕ) (r : CreateRequest) (h : Hub) (s : GroupCallSession)
    : Type 0 where
  pub chosen : IdSet
  pub is_video : normal_call_type r.call_type ≡ video
  pub chat_is_free : chat_has_session r.chat_id h.group_calls ≡ false
  pub are_members : select_participants (member_set r.member_ids) r.participant_ids [] ≡ ok chosen
  pub is_new : s ≡ new_session uuid now r (normal_call_type r.call_type) chosen

pub prepare_call-Prepared :
    (uuid now : ℕ) (r : CreateRequest) (h : Hub) {s : GroupCallSession}
    → prepare_call uuid now r h ≡ ok s
    → Prepared uuid now r h s
unfolding prepare_call
prepare_call-Prepared uuid now r h {s} e =
    elim (Bool-cases (text_eq (normal_call_type r.call_type) video)) [
      | inr other ↦ absurd (refused_type other)
      | inl is_video ↦ elim (Bool-cases (chat_has_session r.chat_id h.group_calls)) [
        | inl busy ↦ absurd (refused_chat is_video busy)
        | inr free ↦
            elim (Result-cases
              (select_participants (member_set r.member_ids) r.participant_ids [])) [
                | inr (why, bad) ↦ absurd (refused_member is_video free why bad)
                | inl (chosen, good) ↦ record {
                  chosen = chosen;
                  is_video = text_eq-eq (normal_call_type r.call_type) video is_video;
                  chat_is_free = free;
                  are_members = good;
                  is_new = accepted is_video free chosen good;
                }
              ]
      ]
    ]
  where
    refused_type : text_eq (normal_call_type r.call_type) video ≡ false → ⊥
    refused_type other = ground arith

    refused_chat :
        text_eq (normal_call_type r.call_type) video ≡ true
        → chat_has_session r.chat_id h.group_calls ≡ true
        → ⊥
    refused_chat is_video busy = ground arith

    refused_member :
        text_eq (normal_call_type r.call_type) video ≡ true
        → chat_has_session r.chat_id h.group_calls ≡ false
        → (why : CallError)
        → select_participants (member_set r.member_ids) r.participant_ids [] ≡ err why
        → ⊥
    refused_member is_video free why bad = ground arith

    accepted :
        text_eq (normal_call_type r.call_type) video ≡ true
        → chat_has_session r.chat_id h.group_calls ≡ false
        → (chosen : IdSet)
        → select_participants (member_set r.member_ids) r.participant_ids [] ≡ ok chosen
        → s ≡ new_session uuid now r (normal_call_type r.call_type) chosen
    accepted is_video free chosen good = ground arith

new_session_ids :
    (uuid now : ℕ) (r : CreateRequest) (t : Text) (chosen : IdSet)
    → ((new_session uuid now r t chosen).call_id ≡ uuid)
      × ((new_session uuid now r t chosen).chat_id ≡ r.chat_id)
unfolding new_session
new_session_ids uuid now r t chosen = (refl, refl)

-- A new session under a fresh id, in a chat that has none, keeps the invariant.
insert_call-HubIsValid :
    (s : GroupCallSession) {h : Hub}
    → HubIsValid h
    → IsValid s
    → lookup s.call_id h.group_calls ≡ none
    → chat_has_session s.chat_id h.group_calls ≡ false
    → HubIsValid (insert_call s h)
unfolding insert_call
insert_call-HubIsValid s {h} v valid fresh free = record {
  keys = insert-Distinct s.call_id s h.group_calls v.keys;
  sessions = λ i t e. elim (lookup-insert_cases i s.call_id s t h.group_calls e) [
    | inl (here, same) ↦ subst (λ x. IsValid x × (x.call_id ≡ i)) same (valid, sym here)
    | inr old ↦ v.sessions i t old
  ];
  one_per_chat = λ i j t u e f same_chat.
      let old = lookup-insert_cases i s.call_id s t h.group_calls e in
      let old' = lookup-insert_cases j s.call_id s u h.group_calls f in
      ground (
        arith,
        old,
        old',
        v.one_per_chat i j t u,
        chat_has_session-ne s.chat_id i t h.group_calls free,
        chat_has_session-ne s.chat_id j u h.group_calls free,
      );
}

-- The store of a session that was prepared over another hub, in a chat that has stayed free.
pub store_call-HubIsValid :
    (uuid now : ℕ) (r : CreateRequest) (seen : Hub) {h : Hub}
    → lookup uuid h.group_calls ≡ none
    → (chat_has_session r.chat_id seen.group_calls ≡ false
        → chat_has_session r.chat_id h.group_calls ≡ false)
    → HubIsValid h
    → HubIsValid (store_call (prepare_call uuid now r seen) h)
store_call-HubIsValid uuid now r seen {h} fresh free v =
    elim (Result-cases (prepare_call uuid now r seen)) [
      | inr (why, bad) ↦ rw bad v
      | inl (s, good) ↦
          let p = prepare_call-Prepared uuid now r seen good in
          let ids = new_session_ids uuid now r (normal_call_type r.call_type) p.chosen in
          rw good (
            insert_call-HubIsValid s v
              (rw p.is_new (new_session-IsValid uuid now r (normal_call_type r.call_type) p.chosen))
              (rw (p.is_new, ids.0) fresh) (rw (p.is_new, ids.1) (free p.chat_is_free)))
    ]

-- A call that is there stays as it is when another is stored.
pub store_call-others :
    (uuid now i : ℕ) (r : CreateRequest) (seen h : Hub) (s : GroupCallSession)
    → lookup uuid h.group_calls ≡ none
    → lookup i h.group_calls ≡ some s
    → lookup i (store_call (prepare_call uuid now r seen) h).group_calls ≡ some s
unfolding insert_call
store_call-others uuid now i r seen h s fresh found =
    elim (Result-cases (prepare_call uuid now r seen)) [
      | inr (why, bad) ↦ rw bad found
      | inl (t, good) ↦
          let p = prepare_call-Prepared uuid now r seen good in
          let ids = new_session_ids uuid now r (normal_call_type r.call_type) p.chosen in
          let id : t.call_id ≡ uuid = rw p.is_new ids.0 in
          rw good (
            rw id (elim (Bool-cases (i == uuid)) [
              | inl same ↦
                  let e : i ≡ uuid = ground arith in
                  absurd (ground (arith, ap (λ k. lookup k h.group_calls) e))
              | inr other ↦ ground (arith, lookup-insert i uuid t h.group_calls)
            ]))
    ]

-- A call that was not there before a store is the one that was prepared.
pub store_call-new :
    (uuid now i : ℕ) (r : CreateRequest) (seen h : Hub) (t : GroupCallSession)
    → lookup i h.group_calls ≡ none
    → lookup i (store_call (prepare_call uuid now r seen) h).group_calls ≡ some t
    → (i ≡ uuid) × (prepare_call uuid now r seen ≡ ok t)
unfolding insert_call
store_call-new uuid now i r seen h t absent = elim (Result-cases (prepare_call uuid now r seen)) [
  | inr (why, bad) ↦ rw bad (λ there. absurd (ground arith))
  | inl (s, good) ↦
      let p = prepare_call-Prepared uuid now r seen good in
      let ids = new_session_ids uuid now r (normal_call_type r.call_type) p.chosen in
      let id : s.call_id ≡ uuid = rw p.is_new ids.0 in
      rw good (λ there. ground (arith, id, good, lookup-insert i s.call_id s h.group_calls))
]
