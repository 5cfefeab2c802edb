-- ===== src/GroupChat/Changes/Rest.antt =====
-- services/group_chat.service.go: the operations that leave participants and bans as they are.
use link_up_server.Base.{
  ℕ, ◌≡◌, inl, inr, refl, Bool, not, ◌&&◌, none, ◌==◌, lookup, any_row, first_row, Bool-cases,
  Option-cases,
}
use link_up_server.Text.{Text}
use link_up_server.GroupChat.Tables.{
  Groups, is_pending, is_user_member, is_user_admin, is_user_banned, get_settings, get_user_mute,
  has_expired, delete_mutes, silences,
}
use link_up_server.GroupChat.Requests.{asks, add_member_request, reject_member_request}
use link_up_server.GroupChat.Roles.{
  transfer_ownership, mute_member, unmute_member, is_mute_reason, is_mute_duration,
}
use link_up_server.GroupChat.Machine.{invite, reject, mute, unmute, check_mute}
use link_up_server.GroupChat.Changes.{Change, unchanged, NoCreator, same}

module _ (g : Groups) where
  pub transfer_ownership-refused :
      (now chat requester target : ℕ) (keep : Bool)
      → NoCreator g
      → (transfer_ownership now chat requester target keep g).1 ≡ g
  unfolding transfer_ownership
  transfer_ownership-refused now chat requester target keep none_yet =
      elim (Bool-cases (requester == target)) [
        | inl self ↦ rw (self, transfer_ownership) refl
        | inr two ↦ elim (Option-cases (lookup chat g.chats)) [
          | inl missing ↦ rw (two, missing, transfer_ownership) refl
          | inr (c, found) ↦
              let none_made : c.creator_id ≡ none = none_yet chat c found in
              rw (two, found, none_made, transfer_ownership) refl
        ]
      ]

  pub mute-Change :
      (uuid now chat admin target : ℕ) (reason : Text) (minutes : ℕ)
      → Change
          (mute uuid now chat admin target reason minutes)
          g
          (mute_member uuid now chat admin target reason minutes g).1
  unfolding mute_member
  mute-Change uuid now chat admin target reason minutes = elim (Bool-cases (admin == target)) [
    | inl self ↦ rw (self, mute_member) (same g _)
    | inr two ↦ elim (Bool-cases (is_user_admin chat admin g)) [
      | inr plain ↦ rw (two, plain, mute_member) (same g _)
      | inl leader ↦ elim (Bool-cases (is_user_member chat target g)) [
        | inr outside ↦ rw (two, leader, outside, mute_member) (same g _)
        | inl member ↦ elim (Bool-cases (is_mute_reason reason)) [
          | inr odd ↦ rw (two, leader, member, odd, mute_member) (same g _)
          | inl known ↦ elim (Bool-cases (is_mute_duration minutes)) [
            | inr long ↦ rw (two, leader, member, known, long, mute_member) (same g _)
            | inl fine ↦
                rw (two, leader, member, known, fine, mute_member) (unchanged _ refl refl (λ h. h))
          ]
        ]
      ]
    ]
  ]

  pub unmute-Change :
      (chat admin target : ℕ)
      → Change (unmute chat admin target) g (unmute_member chat admin target g).1
  unfolding unmute_member delete_mutes
  unmute-Change chat admin target = elim (Bool-cases (is_user_admin chat admin g)) [
    | inr plain ↦ rw (plain, unmute_member) (same g _)
    | inl leader ↦ rw (leader, unmute_member) (unchanged _ refl refl (λ h. h))
  ]

  pub check_mute-Change :
      (now chat user : ℕ) → Change (check_mute now chat user) g (get_user_mute now chat user g).1
  unfolding get_user_mute delete_mutes
  check_mute-Change now chat user = elim (Option-cases (first_row (silences chat user) g.mutes)) [
    | inl unmuted ↦ rw (unmuted, get_user_mute) (same g _)
    | inr ((i, m), found) ↦ elim (Bool-cases (has_expired now m)) [
      | inl over ↦ rw (found, over, get_user_mute) (unchanged _ refl refl (λ h. h))
      | inr runs ↦ rw (found, runs, get_user_mute) (same g _)
    ]
  ]

  pub invite-Change :
      (uuid now chat requester target : ℕ)
      → Change
          (invite uuid now chat requester target)
          g
          (add_member_request uuid now chat requester target g).1
  unfolding add_member_request
  invite-Change uuid now chat requester target =
      let barred_invite =
        not (get_settings chat g).allow_member_add && not (is_user_admin chat requester g) in
      elim (Bool-cases (requester == target)) [
        | inl self ↦ rw (self, add_member_request) (same g _)
        | inr two ↦ elim (Bool-cases (is_user_member chat requester g)) [
          | inr outside ↦ rw (two, outside, add_member_request) (same g _)
          | inl member ↦ elim (Bool-cases barred_invite) [
            | inl may_not ↦ rw (two, member, may_not, add_member_request) (same g _)
            | inr may ↦ elim (Bool-cases (is_user_banned chat target g)) [
              | inl out ↦ rw (two, member, may, out, add_member_request) (same g _)
              | inr free ↦ elim (Bool-cases (is_user_member chat target g)) [
                | inl inside ↦ rw (two, member, may, free, inside, add_member_request) (same g _)
                | inr new ↦ elim (Bool-cases (any_row (asks chat target) g.requests)) [
                  | inl asked ↦
                      rw (two, member, may, free, new, asked, add_member_request) (same g _)
                  | inr first ↦
                      rw (two, member, may, free, new, first, add_member_request)
                        (unchanged _ refl refl (λ h. h))
                ]
              ]
            ]
          ]
        ]
      ]

  pub reject-Change :
      (now chat target id : ℕ)
      → Change (reject now chat target id) g (reject_member_request now chat target id g).1
  unfolding reject_member_request
  reject-Change now chat target id = elim (Option-cases (lookup id g.requests)) [
    | inl missing ↦ rw (missing, reject_member_request) (same g _)
    | inr (r, found) ↦ elim (Bool-cases (r.chat_id == chat)) [
      | inr elsewhere ↦ rw (found, elsewhere, reject_member_request) (same g _)
      | inl here ↦ elim (Bool-cases (r.target_user_id == target)) [
        | inr other ↦ rw (found, here, other, reject_member_request) (same g _)
        | inl mine ↦ elim (Bool-cases (is_pending r.status)) [
          | inr handled ↦ rw (found, here, mine, handled, reject_member_request) (same g _)
          | inl waits ↦
              rw (found, here, mine, waits, reject_member_request) (unchanged _ refl refl (λ h. h))
        ]
      ]
    ]
  ]
