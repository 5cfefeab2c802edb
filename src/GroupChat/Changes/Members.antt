-- ===== src/GroupChat/Changes/Members.antt =====
-- services/group_chat.service.go: how each operation changes who is in a group.
use link_up_server.Base.{
  ℕ, ◌≡◌, inl, inr, refl, subst, Bool, true, false, not, ◌&&◌, ◌||◌, none, some, List, ◌∷◌, arith,
  ltb, ◌==◌, lookup, insert, lookup-insert, any_row, Bool-cases, Option-cases,
}
use link_up_server.Text.{Text, codes, text_eq}
use link_up_server.GroupChat.Tables.{
  MemberRequest, Chat, Groups, chat_admin, takes_part, is_pending, is_user_member, is_user_admin,
  is_user_banned, insert_group, insert_participant, insert_participants, get_settings, move_admin,
  accept_request,
}
use link_up_server.GroupChat.Service.{
  create_group, byte_length, other_members, new_members, leave_group, leave_as, mode_or, ban_member,
}
use link_up_server.GroupChat.Requests.{store_approval, approve_request, approve_member_request}
use link_up_server.GroupChat.Roles.{transfer_admin, in_cooldown}
use link_up_server.GroupChat.Machine.{create, leave, ban, approve, pass_admin}
use link_up_server.GroupChat.Changes.{
  Change, founded, left_by, barred, joined, passed, NoCreator, same,
}

module _ (g : Groups) where
  new_chat :
      (uuid : ℕ) (chat : Chat)
      → chat.creator_id ≡ none
      → NoCreator g
      → (i : ℕ) (k : Chat) → lookup i (insert uuid chat g.chats) ≡ some k
      → k.creator_id ≡ none
  new_chat uuid chat none_made h i k at = elim (Bool-cases (i == uuid)) [
    | inl here ↦
        let e : chat ≡ k = ground (arith, lookup-insert i uuid chat g.chats) in
        subst (λ x. x.creator_id ≡ none) e none_made
    | inr other ↦ h i k (ground (arith, lookup-insert i uuid chat g.chats))
  ]

  pub create-Change :
      (uuid now : ℕ) (fails : Bool) (user : ℕ) (name avatar : Text) (ids : List ℕ)
      → Change
          (create uuid now fails user name avatar ids)
          g
          (create_group uuid now fails user name avatar ids g).1
  unfolding create_group insert_group
  create-Change uuid now true user name avatar ids =
      elim (Bool-cases (ltb (byte_length name) 3 || ltb 50 (byte_length name))) [
        | inl bad ↦ rw (bad, create_group) (same g _)
        | inr fine ↦ rw (fine, create_group) (same g _)
      ]
  create-Change uuid now false user name avatar ids =
      let new =
        record { chat_id = uuid; user_id = user; role = chat_admin; joined_at = now }
        ∷ new_members uuid now (other_members user ids) in
      elim (Bool-cases (ltb (byte_length name) 3 || ltb 50 (byte_length name))) [
        | inl bad ↦ rw (bad, create_group) (same g _)
        | inr fine ↦ elim (Option-cases (lookup uuid g.chats)) [
          | inr (other, taken) ↦ rw (fine, taken, create_group) (same g _)
          | inl free ↦ elim (Option-cases (insert_participants new g.participants)) [
            | inl twice ↦ rw (fine, free, twice, create_group) (same g _)
            | inr (ps, e) ↦
                rw (fine, free, e, create_group)
                  (founded _ uuid now user false name avatar ids refl e refl (new_chat uuid _ refl))
          ]
        ]
      ]

  pub leave-Change :
      (chat user : ℕ) (mode history : Text)
      → Change (leave chat user mode history) g (leave_group chat user mode history g).1
  unfolding leave_group leave_as
  leave-Change chat user mode history =
      let c = leave chat user mode history in
      let m = mode_or (codes "public") mode in
      let h = mode_or (codes "keep") history in
      elim (Bool-cases (is_user_member chat user g)) [
        | inr stranger ↦ rw (stranger, leave_group) (same g c)
        | inl member ↦
            elim (Bool-cases
              (not (text_eq m (codes "silent")) && not (text_eq m (codes "public")))) [
                | inl bad ↦ rw (member, bad, leave_group) (same g c)
                | inr fine ↦
                    elim (Bool-cases
                      (not (text_eq h (codes "keep")) && not (text_eq h (codes "anonymize")))) [
                        | inl bad ↦ rw (member, fine, bad, leave_group) (same g c)
                        | inr good ↦
                            rw (member, fine, good, leave_group)
                              (left_by _ chat user refl refl (λ h. h))
                      ]
              ]
      ]

  pub ban-Change :
      (now chat admin target : ℕ)
      → Change (ban now chat admin target) g (ban_member now chat admin target g).1
  unfolding ban_member
  ban-Change now chat admin target =
      let c = ban now chat admin target in
      elim (Bool-cases (admin == target)) [
        | inl self ↦ rw (self, ban_member) (same g c)
        | inr two ↦ elim (Bool-cases (is_user_admin chat admin g)) [
          | inr plain ↦ rw (two, plain, ban_member) (same g c)
          | inl leader ↦ elim (Bool-cases (is_user_banned chat target g)) [
            | inl before ↦ rw (two, leader, before, ban_member) (same g c)
            | inr first ↦ rw (two, leader, first, ban_member) (barred _ _ refl refl (λ h. h))
          ]
        ]
      ]

  store_approval-Change :
      (now chat target id : ℕ) (r : MemberRequest)
      → lookup id g.requests ≡ some r
      → r.chat_id ≡ chat
      → r.target_user_id ≡ target
      → is_pending r.status ≡ true
      → is_user_banned chat target g ≡ false
      → Change (approve now chat target id) g (store_approval now chat target id r g).1
  unfolding store_approval accept_request insert_participant
  store_approval-Change now chat target id r found here mine waits free =
      elim (Bool-cases (any_row (takes_part r.chat_id r.target_user_id) g.participants)) [
        | inl twice ↦ rw (found, waits, twice, store_approval) (same g _)
        | inr once ↦
            rw (found, waits, once, store_approval)
              (joined _ now chat target id r refl found here mine waits free refl refl (λ h. h))
      ]

  pub approve-Change :
      (now chat target id : ℕ)
      → Change (approve now chat target id) g (approve_member_request now chat target id g).1
  unfolding approve_member_request approve_request
  approve-Change now chat target id =
      let c = approve now chat target id in
      elim (Option-cases (lookup id g.requests)) [
        | inl missing ↦ rw (missing, approve_member_request) (same g c)
        | inr (r, found) ↦ elim (Bool-cases (r.chat_id == chat)) [
          | inr elsewhere ↦ rw (found, elsewhere, approve_member_request) (same g c)
          | inl here ↦ elim (Bool-cases (r.target_user_id == target)) [
            | inr other ↦ rw (found, here, other, approve_member_request) (same g c)
            | inl mine ↦ elim (Bool-cases (is_pending r.status)) [
              | inr handled ↦ rw (found, here, mine, handled, approve_member_request) (same g c)
              | inl waits ↦ elim (Bool-cases (is_user_banned chat target g)) [
                | inl out ↦ rw (found, here, mine, waits, out, approve_member_request) (same g c)
                | inr free ↦ elim (Bool-cases (is_user_member chat target g)) [
                  | inl member ↦
                      rw (found, here, mine, waits, free, member, approve_member_request) (same g c)
                  | inr outside ↦
                      rw (found, here, mine, waits, free, outside, approve_member_request)
                        (store_approval-Change now chat target id r found (ground arith)
                          (ground arith) waits free)
                ]
              ]
            ]
          ]
        ]
      ]

  pub pass_admin-Change :
      (add_month : ℕ → ℕ) (now chat requester target : ℕ)
      → Change
          (pass_admin add_month now chat requester target)
          g
          (transfer_admin add_month now chat requester target g).1
  unfolding transfer_admin move_admin
  pass_admin-Change add_month now chat requester target = elim (Bool-cases (requester == target)) [
    | inl self ↦ rw (self, transfer_admin) (same g _)
    | inr two ↦ elim (Bool-cases (is_user_admin chat requester g)) [
      | inr plain ↦ rw (two, plain, transfer_admin) (same g _)
      | inl leader ↦ elim (Bool-cases (is_user_member chat target g)) [
        | inr outside ↦ rw (two, leader, outside, transfer_admin) (same g _)
        | inl member ↦ elim (Bool-cases (in_cooldown add_month now (get_settings chat g))) [
          | inl early ↦ rw (two, leader, member, early, transfer_admin) (same g _)
          | inr late ↦
              rw (two, leader, member, late, transfer_admin)
                (passed _ chat requester target leader refl refl (λ h. h))
        ]
      ]
    ]
  ]
