-- ===== src/GroupChat/Members.antt =====
-- services/group_chat.service.go: who is in a group, and who cannot be.
use link_up_server.Base.{
  ℕ, ◌≡◌, ◌⊎◌, inl, inr, sym, ◌∙◌, subst, Bool, true, false, ◌&&◌, some, List, [], ◌∷◌, arith, ◌==◌,
  lookup, delete_rows, any_row, Bool-cases, Option-cases, any_row-delete_rows, any_row-deleted,
  any_row-change_rows,
}
use link_up_server.Text.{Text}
use link_up_server.GroupChat.Tables.{
  ChatParticipant, GroupChatBan, MemberRequest, Groups, chat_admin, chat_member, takes_part, bars,
  with_role, leads_as, is_pending, is_user_member, is_user_banned, insert_participant,
  insert_participants,
}
use link_up_server.GroupChat.Service.{new_members, other_members}
use link_up_server.GroupChat.Machine.{
  Command, create, approve, step, IsFresh, Reach, start, next, no_groups,
}
use link_up_server.GroupChat.Changes.{
  Change, unchanged, founded, left_by, barred, joined, passed, NoCreator,
}
use link_up_server.GroupChat.Valid.{step-Change}

-- After insertions, a row was there before or is one of the new ones.
pub any_row-insert_participants :
    (p : ChatParticipant → Bool) (new ps ps' : List ChatParticipant)
    → insert_participants new ps ≡ some ps'
    → any_row p ps' ≡ true
    → (any_row p new ≡ true) ⊎ (any_row p ps ≡ true)
unfolding insert_participants insert_participant any_row
any_row-insert_participants p [] ps ps' = λ e h. inr (ground arith)
any_row-insert_participants p (x ∷ new) ps ps' = elim (Option-cases (insert_participants new ps)) [
  | inl twice ↦ rw (twice, insert_participants) (λ e h. cc)
  | inr (rest, f) ↦ elim (Bool-cases (any_row (takes_part x.chat_id x.user_id) rest)) [
    | inl taken ↦ rw (f, taken, insert_participants) (λ e h. cc)
    | inr free ↦
        rw (f, free, insert_participants)
          (λ e h.
            let split : (p x ≡ true) ⊎ (any_row p rest ≡ true) = ground arith in
            elim split [
              | inl first ↦ inl (ground arith)
              | inr later ↦ elim (any_row-insert_participants p new ps rest f later) [
                | inl new_one ↦ inl (ground arith)
                | inr old ↦ inr old
              ]
            ])
  ]
]

-- The rows of a new group are of that group.
founders_chat :
    (chat user uuid now id : ℕ) (ids : List ℕ)
    → any_row (takes_part chat user) (
        record { chat_id = uuid; user_id = id; role = chat_admin; joined_at = now }
        ∷ new_members uuid now ids)
      ≡ true
    → chat ≡ uuid
unfolding any_row new_members
founders_chat chat user uuid now id [] h = ground arith
founders_chat chat user uuid now id (m ∷ ids) h =
    let rest = founders_chat chat user uuid now m ids in ground (arith, rest)

-- How a user comes into a chat: by the command that creates the chat, or by accepting an invitation, with no ban.
pub data Joins (chat user : ℕ) (g : Groups) (c : Command) : Type 0 where
  founding :
      (now creator : ℕ) (fails : Bool) (name avatar : Text) (ids : List ℕ)
      → c ≡ create chat now fails creator name avatar ids
      → Joins chat user g c
  accepting :
      (now id : ℕ) (request : MemberRequest)
      → c ≡ approve now chat user id
      → lookup id g.requests ≡ some request
      → request.chat_id ≡ chat
      → request.target_user_id ≡ user
      → is_pending request.status ≡ true
      → is_user_banned chat user g ≡ false
      → Joins chat user g c

module _ (c : Command) (g : Groups) (chat user : ℕ) where
  joined-Joins :
      (now chat0 target id : ℕ) (r : MemberRequest) (ps : List ChatParticipant)
      → c ≡ approve now chat0 target id
      → lookup id g.requests ≡ some r
      → r.chat_id ≡ chat0
      → r.target_user_id ≡ target
      → is_pending r.status ≡ true
      → is_user_banned chat0 target g ≡ false
      → any_row (takes_part chat user) (
          record {
            chat_id = r.chat_id;
            user_id = r.target_user_id;
            role = chat_member;
            joined_at = now;
          }
          ∷ ps)
        ≡ true
      → (any_row (takes_part chat user) ps ≡ true) ⊎ Joins chat user g c
  unfolding any_row
  joined-Joins now chat0 target id r ps e found here mine waits free h =
      elim (Bool-cases (r.chat_id == chat && r.target_user_id == user)) [
        | inr other ↦ inl (ground arith)
        | inl this ↦
            let at : chat0 ≡ chat = ground arith in
            let who : target ≡ user = ground arith in
            inr (
              accepting now id r
                (subst (λ k. c ≡ approve now k user id) at
                  (subst (λ k. c ≡ approve now chat0 k id) who e))
                found (here ∙ at) (mine ∙ who) waits
                (subst (λ k. is_user_banned k user g ≡ false) at
                  (subst (λ k. is_user_banned chat0 k g ≡ false) who free)))
      ]

  change-Joins :
      (g' : Groups)
      → Change c g g'
      → is_user_member chat user g' ≡ true
      → (is_user_member chat user g ≡ true) ⊎ Joins chat user g c
  unfolding is_user_member
  change-Joins g' (unchanged _ same bans n) member = inl (rw same at member)
  change-Joins g' (left_by _ chat0 user0 same bans n) member = inl (
      any_row-delete_rows (takes_part chat user) (takes_part chat0 user0) g.participants
        (rw same at member))
  change-Joins g' (barred _ b same bans n) member = inl (
      any_row-delete_rows (takes_part chat user) (takes_part b.chat_id b.user_id) g.participants
        (rw same at member))
  change-Joins g' (passed _ chat0 a b leader same bans n) member = inl (
      any_row-change_rows (takes_part chat user) (leads_as chat0 a) (with_role chat_member)
        g.participants (λ x on h. h)
        (any_row-change_rows (takes_part chat user) (takes_part chat0 b) (with_role chat_admin) _
          (λ x on h. h) (rw same at member)))
  change-Joins g' (joined _ now chat0 target id r e found here mine waits free same bans n) member =
      joined-Joins now chat0 target id r g.participants e found here mine waits free
        (rw same at member)
  change-Joins g' (founded _ uuid now creator fails name avatar ids e same bans n) member =
      elim (any_row-insert_participants (takes_part chat user) _ g.participants g'.participants same
        member) [
          | inr old ↦ inl old
          | inl new ↦
              let at : uuid ≡ chat =
                sym (founders_chat chat user uuid now creator (other_members creator ids) new) in
              inr (
                founding now creator fails name avatar ids
                  (subst (λ k. c ≡ create k now fails creator name avatar ids) at e))
        ]

-- Nobody who is banned from a chat is in it.
abbrev pub BannedOut : Groups → Type 0
BannedOut g =
    (chat user : ℕ) → is_user_member chat user g ≡ true → is_user_banned chat user g ≡ false

not_banned :
    (c : Command) (g : Groups) (chat user : ℕ)
    → IsFresh c g
    → BannedOut g
    → ((is_user_member chat user g ≡ true) ⊎ Joins chat user g c)
    → is_user_banned chat user g ≡ false
not_banned c g chat user fresh out (inl member) = out chat user member
not_banned c g chat user fresh out (inr (founding now creator fails name avatar ids e)) =
    let fresh' : IsFresh (create chat now fails creator name avatar ids) g =
      subst (λ k. IsFresh k g) e fresh in
    (fresh' user).1
not_banned c g chat user fresh out (inr (accepting now id r e found here mine waits free)) = free

same_bans :
    (g g' : Groups) (chat user : ℕ)
    → g'.bans ≡ g.bans
    → is_user_banned chat user g ≡ false
    → is_user_banned chat user g' ≡ false
unfolding is_user_banned
same_bans g g' chat user bans h = rw bans h

barred-out :
    (g g' : Groups) (b : GroupChatBan) (chat user : ℕ)
    → g'.participants ≡ delete_rows (takes_part b.chat_id b.user_id) g.participants
    → g'.bans ≡ b ∷ g.bans
    → is_user_member chat user g' ≡ true
    → is_user_banned chat user g ≡ false
    → is_user_banned chat user g' ≡ false
unfolding is_user_member is_user_banned any_row
barred-out g g' b chat user same bans member free = elim (Bool-cases (bars chat user b)) [
  | inr other ↦ rw (bans, other) free
  | inl this ↦
      let gone : any_row (takes_part chat user) g'.participants ≡ false = rw same (
        any_row-deleted (takes_part chat user) (takes_part b.chat_id b.user_id) g.participants
          (λ x on. ground arith)) in
      absurd (ground (arith, gone))
]

after-BannedOut :
    (c : Command) (g g' : Groups) (chat user : ℕ)
    → Change c g g'
    → is_user_member chat user g' ≡ true
    → is_user_banned chat user g ≡ false
    → is_user_banned chat user g' ≡ false
after-BannedOut c g g' chat user (unchanged _ same bans n) member = same_bans g g' chat user bans
after-BannedOut c g g' chat user (founded _ _ _ _ _ _ _ _ e same bans n) member =
    same_bans g g' chat user bans
after-BannedOut c g g' chat user (left_by _ _ _ same bans n) member = same_bans g g' chat user bans
after-BannedOut c g g' chat user (joined _ _ _ _ _ _ e found here mine waits free same bans n)
      member =
    same_bans g g' chat user bans
after-BannedOut c g g' chat user (passed _ _ _ _ leader same bans n) member =
    same_bans g g' chat user bans
after-BannedOut c g g' chat user (barred _ b same bans n) member =
    barred-out g g' b chat user same bans member

pub change-NoCreator : (c : Command) (g g' : Groups) → Change c g g' → NoCreator g → NoCreator g'
change-NoCreator c g g' (unchanged _ same bans n) = n
change-NoCreator c g g' (founded _ _ _ _ _ _ _ _ e same bans n) = n
change-NoCreator c g g' (left_by _ _ _ same bans n) = n
change-NoCreator c g g' (joined _ _ _ _ _ _ e found here mine waits free same bans n) = n
change-NoCreator c g g' (passed _ _ _ _ leader same bans n) = n
change-NoCreator c g g' (barred _ b same bans n) = n

-- In all tables of group chats that the operations, one after the other and never two at once,
-- reach from empty ones, where the id of a new group is one that no row names, nobody who is
-- banned from a chat is a participant of it, and no chat has a creator.
pub Reach-BannedOut : (g : Groups) → Reach no_groups g → BannedOut g × NoCreator g
unfolding is_user_member is_user_banned any_row lookup
Reach-BannedOut _ start = (λ chat user h. cc, λ i chat at. cc)
Reach-BannedOut _ (next c g fresh r) =
    let (out, none_made) = Reach-BannedOut g r in
    let change = step-Change c g none_made in
    (
      λ chat user member. after-BannedOut c g (step c g) chat user change member (
          not_banned c g chat user fresh out (change-Joins c g chat user (step c g) change member)),
      change-NoCreator c g (step c g) change none_made,
    )

-- When a command brings a user into a chat in which the user was not, in tables that the operations reach, the command creates
-- that chat, or it is the user's own acceptance of a pending invitation to that chat, and the user is not banned from it.
pub step-Joins :
    (c : Command) (g : Groups) (chat user : ℕ)
    → Reach no_groups g
    → is_user_member chat user g ≡ false
    → is_user_member chat user (step c g) ≡ true
    → Joins chat user g c
step-Joins c g chat user r outside inside =
    elim (change-Joins c g chat user (step c g) (step-Change c g (Reach-BannedOut g r).1) inside) [
      | inl before ↦ absurd (ground arith)
      | inr how ↦ how
    ]
