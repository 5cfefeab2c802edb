-- ===== src/GroupChat/Leaders.antt =====
-- services/group_chat.service.go: the administrators of a group.
use link_up_server.Base.{
  ℕ, ◌≡◌, ◌≢◌, inl, inr, subst, Bool, true, false, not, ◌&&◌, List, [], ◌∷◌, arith, ◌==◌, any_row,
  Bool-cases, any_row-delete_rows, any_row-change_rows, any_row_mono, any_row-rest,
}
use link_up_server.Text.{Text, codes, text_eq}
use link_up_server.GroupChat.Tables.{
  ChatParticipant, Groups, chat_admin, chat_member, takes_part, leads, leads_as, with_role,
  is_user_member, is_user_admin,
}
use link_up_server.GroupChat.Service.{
  ok, leave_group, leave_as, mode_or, new_members, other_members,
}
use link_up_server.GroupChat.Machine.{Command, create, leave, step}
use link_up_server.GroupChat.Changes.{
  Change, unchanged, founded, left_by, barred, joined, passed, NoCreator,
}
use link_up_server.GroupChat.Changes.Members.{leave-Change}
use link_up_server.GroupChat.Valid.{step-Change}
use link_up_server.GroupChat.Members.{change-NoCreator, any_row-insert_participants}

unfoldable pub has_admin : ℕ → Groups → Bool
has_admin chat g = any_row (leads chat) g.participants

-- The command does not create a group under the id.
abbrev pub Avoids : ℕ → Command → Type 0
Avoids chat (create uuid now fails user name avatar ids) = uuid ≢ chat
Avoids chat c = Unit

-- Any commands that do not create a group under the id.
pub data Later (chat : ℕ) (g : Groups) : Groups → Type 0 where
  now_on : Later chat g g
  then_on : (c : Command) (g' : Groups) → Avoids chat c → Later chat g g' → Later chat g (step c g')

new_leader :
    (chat uuid now id : ℕ) (ids : List ℕ)
    → uuid ≢ chat
    → any_row (leads chat) (
        record { chat_id = uuid; user_id = id; role = chat_admin; joined_at = now }
        ∷ new_members uuid now ids)
      ≡ false
unfolding any_row new_members
new_leader chat uuid now id [] apart = ground arith
new_leader chat uuid now id (m ∷ ids) apart =
    let rest = new_leader chat uuid now m ids apart in ground (arith, rest)

leader-row :
    (g : Groups) (chat user : ℕ)
    → is_user_admin chat user g ≡ true
    → any_row (leads_as chat user) g.participants ≡ true
unfolding is_user_admin
leader-row g chat user h = h

-- A command gives no administrator to a chat that has none.
change-has_admin :
    (c : Command) (g g' : Groups) (chat : ℕ)
    → Avoids chat c
    → Change c g g'
    → has_admin chat g' ≡ true
    → has_admin chat g ≡ true
unfolding has_admin any_row
change-has_admin c g g' chat away (unchanged _ same bans n) h = rw same at h
change-has_admin c g g' chat away (left_by _ chat0 user same bans n) h =
    any_row-delete_rows (leads chat) (takes_part chat0 user) g.participants (rw same at h)
change-has_admin c g g' chat away (barred _ b same bans n) h =
    any_row-delete_rows (leads chat) (takes_part b.chat_id b.user_id) g.participants (rw same at h)
change-has_admin c g g' chat away (joined _ now chat0 user id r e f here mine w free same bans n)
      h =
    let h' = rw same at h in ground arith
change-has_admin c g g' chat away (founded _ uuid now user fails name avatar ids e same bans n) h =
    elim (any_row-insert_participants (leads chat) _ g.participants g'.participants same h) [
      | inr old ↦ old
      | inl new ↦
          let apart : uuid ≢ chat = subst (Avoids chat) e away in
          absurd (ground (arith, new_leader chat uuid now user (other_members user ids) apart))
    ]
change-has_admin c g g' chat away (passed _ chat0 a b leader same bans n) h =
    elim (Bool-cases (chat0 == chat)) [
      | inl here ↦
          any_row_mono (leads_as chat0 a) (leads chat) g.participants (λ x on. ground arith)
            (leader-row g chat0 a leader)
      | inr apart ↦
          any_row-change_rows (leads chat) (leads_as chat0 a) (with_role chat_member) g.participants
            (λ x on k. ground arith)
            (any_row-change_rows (leads chat) (takes_part chat0 b) (with_role chat_admin) _
              (λ x on k. absurd (ground arith)) (rw same at h))
    ]

-- A chat without an administrator has none ever after.
leaderless-Later :
    (chat : ℕ) (g g' : Groups)
    → NoCreator g
    → has_admin chat g ≡ false
    → Later chat g g'
    → NoCreator g' × (has_admin chat g' ≡ false)
leaderless-Later chat g _ none_made h now_on = (none_made, h)
leaderless-Later chat g _ none_made h (then_on c g' away r) =
    let (none_made', h') = leaderless-Later chat g g' none_made h r in
    let change = step-Change c g' none_made' in
    (
      change-NoCreator c g' (step c g') change none_made',
      elim (Bool-cases (has_admin chat (step c g'))) [
        | inr off ↦ off
        | inl on ↦ absurd (ground (arith, change-has_admin c g' (step c g') chat away change on))
      ],
    )

-- An administrator of the chat other than the user.
abbrev pub leads_beside : ℕ → ℕ → ChatParticipant → Bool
leads_beside chat user p = leads chat p && not (takes_part chat user p)

left-has_admin :
    (chat user : ℕ) (mode history : Text) (g : Groups)
    → any_row (leads_beside chat user) g.participants ≡ false
    → (leave_group chat user mode history g).0 ≡ ok
    → has_admin chat (leave_group chat user mode history g).1 ≡ false
unfolding leave_group leave_as has_admin
left-has_admin chat user mode history g alone =
    let m = mode_or (codes "public") mode in
    let h = mode_or (codes "keep") history in
    elim (Bool-cases (is_user_member chat user g)) [
      | inr stranger ↦ rw (stranger, leave_group) (λ left. cc)
      | inl member ↦
          elim (Bool-cases (not (text_eq m (codes "silent")) && not (text_eq m (codes "public")))) [
            | inl bad ↦ rw (member, bad, leave_group) (λ left. cc)
            | inr fine ↦
                elim (Bool-cases
                  (not (text_eq h (codes "keep")) && not (text_eq h (codes "anonymize")))) [
                    | inl bad ↦ rw (member, fine, bad, leave_group) (λ left. cc)
                    | inr good ↦
                        rw (member, fine, good, leave_group)
                          (λ left.
                            any_row-rest (leads chat) (takes_part chat user) g.participants alone)
                  ]
          ]
    ]

-- When a user leaves a chat, in any mode that is accepted, and the chat has no other administrator, then it has no administrator after
-- that and after all further operations but one that creates a group under its id. The condition is that no chat has a creator,
-- which holds of all tables that the operations reach.
pub last_admin-Later :
    (chat user : ℕ) (mode history : Text) (g g' : Groups)
    → NoCreator g
    → any_row (leads_beside chat user) g.participants ≡ false
    → (leave_group chat user mode history g).0 ≡ ok
    → Later chat (leave_group chat user mode history g).1 g'
    → has_admin chat g' ≡ false
last_admin-Later chat user mode history g g' n alone left later =
    let n' =
      change-NoCreator (leave chat user mode history) g _ (leave-Change g chat user mode history)
        n in
    (leaderless-Later chat _ g' n' (left-has_admin chat user mode history g alone left) later).1
