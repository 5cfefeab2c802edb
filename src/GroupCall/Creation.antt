-- ===== src/GroupCall/Creation.antt =====
-- When CreateGroupCall succeeds, whom the new call holds, and what two of them at once can do.
use link_up_server.Base.{
  ℕ, ◌≡◌, ◌≢◌, inl, inr, ◌↔◌, refl, sym, ap, ◌∙◌, true, false, some, List, [], ◌∷◌, arith, lookup,
  insert, has, add, has-add, lookup-insert, ◌==◌, if◌then◌else◌, Bool-cases, IdSet,
}
use link_up_server.Text.{text_eq, text_eq_refl}
use link_up_server.GroupCall.Session.{GroupCallSession, Hub, ok}
use link_up_server.GroupCall.Create.{
  CreateRequest, video, normal_call_type, chat_has_session, member_set, select_participants,
  new_session, prepare_call, insert_call, create_group_call,
}
use link_up_server.GroupCall.Invariant.Create.{prepare_call-Prepared}

has-member_set :
    (x : ℕ) (ids : List ℕ) → has x (member_set ids) ≡ (if x == 0 then false else has x ids)
unfolding member_set has
has-member_set x [] = ground arith
has-member_set x (id ∷ ids) = ground (arith, has-member_set x ids, has-add id x (member_set ids))

select_participants-has :
    (x : ℕ) (members : IdSet) (ids : List ℕ) (chosen : IdSet) {result : IdSet}
    → select_participants members ids chosen ≡ ok result
    → has x result ≡ (if has x chosen then true else if x == 0 then false else has x ids)
unfolding select_participants has
select_participants-has x members [] chosen e = ground arith
select_participants-has x members (id ∷ ids) chosen {result} e = ground (
  arith,
  select_participants-has x members ids chosen {result = result},
  select_participants-has x members ids (add id chosen) {result = result},
  has-add id x chosen,
)

select_participants-members :
    (x : ℕ) (members : IdSet) (ids : List ℕ) (chosen : IdSet) {result : IdSet}
    → select_participants members ids chosen ≡ ok result
    → has x ids ≡ true
    → x ≢ 0
    → has x members ≡ true
unfolding select_participants has
select_participants-members x members [] chosen e h n = cc
select_participants-members x members (id ∷ ids) chosen {result} e h n = ground (
  arith,
  select_participants-members x members ids chosen {result = result},
  select_participants-members x members ids (add id chosen) {result = result},
)

-- The loop returns early only at an id that is no member.
select_participants-ok :
    (members : IdSet) (ids : List ℕ) (chosen : IdSet)
    → ((x : ℕ) → has x ids ≡ true → x ≢ 0 → has x members ≡ true)
    → (result : IdSet) × (select_participants members ids chosen ≡ ok result)
unfolding select_participants has
select_participants-ok members [] chosen h = (chosen, refl)
select_participants-ok members (id ∷ ids) chosen h = elim (Bool-cases (id == 0)) [
  | inl empty ↦ rw (empty, select_participants) (select_participants-ok members ids chosen later)
  | inr real ↦
      rw (real, h id (ground arith) (ground arith), select_participants)
        (select_participants-ok members ids (add id chosen) later)
]
  where
    later : (x : ℕ) → has x ids ≡ true → x ≢ 0 → has x members ≡ true
    later x k = h x (ground arith)

-- The conditions of `CreateGroupCall`.
pub record Accepts (r : CreateRequest) (h : Hub) : Type 0 where
  pub is_video : normal_call_type r.call_type ≡ video
  pub chat_is_free : chat_has_session r.chat_id h.group_calls ≡ false
  pub are_members : (x : ℕ) → has x r.participant_ids ≡ true → x ≢ 0 → has x r.member_ids ≡ true

pub create_group_call-prepare :
    (uuid now : ℕ) (r : CreateRequest) (h : Hub)
    → (create_group_call uuid now r h).0 ≡ prepare_call uuid now r h
unfolding create_group_call
create_group_call-prepare uuid now r h = ground arith

pub prepare_call-Accepts :
    (uuid now : ℕ) (r : CreateRequest) (h : Hub) {s : GroupCallSession}
    → prepare_call uuid now r h ≡ ok s
    → Accepts r h
prepare_call-Accepts uuid now r h {s} e =
    let p = prepare_call-Prepared uuid now r h e in
    record {
      is_video = p.is_video;
      chat_is_free = p.chat_is_free;
      are_members = λ x k n. ground (
        arith,
        has-member_set x r.member_ids,
        select_participants-members x (member_set r.member_ids) r.participant_ids []
            {result = p.chosen} p.are_members k n,
      );
    }

prepare_call-chosen :
    (uuid now : ℕ) (r : CreateRequest) (h : Hub) (chosen : IdSet)
    → text_eq (normal_call_type r.call_type) video ≡ true
    → chat_has_session r.chat_id h.group_calls ≡ false
    → select_participants (member_set r.member_ids) r.participant_ids [] ≡ ok chosen
    → prepare_call uuid now r h ≡ ok (new_session uuid now r (normal_call_type r.call_type) chosen)
unfolding prepare_call
prepare_call-chosen uuid now r h chosen is_video free good = ground arith

Accepts-prepare_call :
    (uuid now : ℕ) (r : CreateRequest) (h : Hub)
    → Accepts r h
    → (s : GroupCallSession) × (prepare_call uuid now r h ≡ ok s)
Accepts-prepare_call uuid now r h a =
    let (chosen, good) =
      select_participants-ok (member_set r.member_ids) r.participant_ids []
        (λ x k n. ground (arith, has-member_set x r.member_ids, a.are_members x k n)) in
    (
      new_session uuid now r (normal_call_type r.call_type) chosen,
      prepare_call-chosen uuid now r h chosen
          (ap (λ t. text_eq t video) a.is_video ∙ text_eq_refl video) a.chat_is_free good,
    )

-- A group call is created exactly if it is a video call (or of no type), its chat has no call, and
-- each named participant is a member of the group.
pub create_group_call-ok_iff :
    (uuid now : ℕ) (r : CreateRequest) (h : Hub)
    → ((s : GroupCallSession) × ((create_group_call uuid now r h).0 ≡ ok s)) ↔ Accepts r h
create_group_call-ok_iff uuid now r h = (
  λ (s, e). prepare_call-Accepts uuid now r h (sym (create_group_call-prepare uuid now r h) ∙ e),
  λ a.
      let (s, e) = Accepts-prepare_call uuid now r h a in
      (s, create_group_call-prepare uuid now r h ∙ e),
)

-- The participants of a new call are its creator and the participants named in the request.
pub create_group_call-participants :
    (uuid now : ℕ) (r : CreateRequest) (h : Hub) {s : GroupCallSession} (x : ℕ)
    → (create_group_call uuid now r h).0 ≡ ok s
    → has x s.participants
      ≡ (if x == r.caller_id then true else if x == 0 then false else has x r.participant_ids)
unfolding new_session has
create_group_call-participants uuid now r h {s} x e =
    let p =
      prepare_call-Prepared uuid now r h {s = s}
        (sym (create_group_call-prepare uuid now r h) ∙ e) in
    rw p.is_new (
      ground (
        arith,
        has-add r.caller_id x p.chosen,
        select_participants-has x (member_set r.member_ids) r.participant_ids [] {result = p.chosen}
            p.are_members,
      ))

prepared_chat :
    (uuid now : ℕ) (r : CreateRequest) (h : Hub) {s : GroupCallSession}
    → prepare_call uuid now r h ≡ ok s
    → (s.call_id ≡ uuid) × (s.chat_id ≡ r.chat_id)
unfolding new_session
prepared_chat uuid now r h {s} e =
    let p = prepare_call-Prepared uuid now r h e in (rw p.is_new, rw p.is_new)

-- Two requests for one chat that both pass the check under the read lock, before either takes the
-- write lock, leave the chat with two calls, under their two ids.
pub create_race :
    (i j now now' : ℕ) (r r' : CreateRequest) (h : Hub) {s t : GroupCallSession}
    → i ≢ j
    → r.chat_id ≡ r'.chat_id
    → prepare_call i now r h ≡ ok s
    → prepare_call j now' r' h ≡ ok t
    → (lookup i (insert_call t (insert_call s h)).group_calls ≡ some s)
      × (lookup j (insert_call t (insert_call s h)).group_calls ≡ some t)
      × (s.chat_id ≡ r.chat_id)
      × (t.chat_id ≡ r.chat_id)
unfolding insert_call
create_race i j now now' r r' h {s} {t} ne chat first second =
    (ground (arith, a, b, inner, outer i), ground (arith, b, outer j), a.1, b.1 ∙ sym chat)
  where
    a : (s.call_id ≡ i) × (s.chat_id ≡ r.chat_id)
    a = prepared_chat i now r h first

    b : (t.call_id ≡ j) × (t.chat_id ≡ r'.chat_id)
    b = prepared_chat j now' r' h second

    inner :
        lookup i (insert s.call_id s h.group_calls)
        ≡ (if i == s.call_id then some s else lookup i h.group_calls)
    inner = lookup-insert i s.call_id s h.group_calls

    outer :
        (k : ℕ)
        → lookup k (insert t.call_id t (insert s.call_id s h.group_calls))
          ≡ (if k == t.call_id then some t else lookup k (insert s.call_id s h.group_calls))
    outer k = lookup-insert k t.call_id t (insert s.call_id s h.group_calls)
