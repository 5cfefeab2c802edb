-- ===== src/GroupChat/Races.antt =====
-- services/group_chat.service.go: a ban between the queries of ApproveMemberRequest and its
-- transaction, which does not look at the bans.
use link_up_server.Base.{
  ℕ, ◌≡◌, refl, true, false, some, arith, lookup, ◌==◌, any_row, any_row-deleted,
}
use link_up_server.GroupChat.Tables.{
  MemberRequest, Groups, takes_part, is_user_member, is_user_admin, is_user_banned, is_pending,
  accept_request, ban_user, insert_participant,
}
use link_up_server.GroupChat.Service.{ban_member}
use link_up_server.GroupChat.Requests.{store_approval}

banned-rows :
    (now chat admin target : ℕ) (g : Groups)
    → is_user_banned chat target g ≡ false
    → is_user_admin chat admin g ≡ true
    → (admin == target) ≡ false
    → (ban_member now chat admin target g).1
      ≡ ban_user
          (record { chat_id = chat; user_id = target; banned_by = admin; created_at = now })
          g
unfolding ban_member
banned-rows now chat admin target g free leads two = rw (two, leads, free, ban_member) refl

-- What is stored when the user is not in the group: the bans stay.
stored :
    (later id : ℕ) (r : MemberRequest) (g : Groups)
    → lookup id g.requests ≡ some r
    → is_pending r.status ≡ true
    → is_user_member r.chat_id r.target_user_id g ≡ false
    → is_user_banned r.chat_id r.target_user_id g ≡ true
    → let g' = (store_approval later r.chat_id r.target_user_id id r g).1 in
      (is_user_member r.chat_id r.target_user_id g' ≡ true)
      × (is_user_banned r.chat_id r.target_user_id g' ≡ true)
unfolding store_approval accept_request insert_participant is_user_member is_user_banned any_row
stored later id r g found waits outside barred =
    let here : (r.chat_id == r.chat_id) ≡ true = ground arith in
    let self : (r.target_user_id == r.target_user_id) ≡ true = ground arith in
    rw (found, waits, outside, store_approval) (rw (here, self) refl, barred)

-- An administrator bans the user of a pending invitation after the queries have found neither a ban nor a
-- membership, and then the approval is stored: the user is banned, and in the group.
ban_member-then_approval :
    (now later admin id : ℕ) (r : MemberRequest) (g : Groups)
    → lookup id g.requests ≡ some r
    → is_pending r.status ≡ true
    → is_user_banned r.chat_id r.target_user_id g ≡ false
    → is_user_admin r.chat_id admin g ≡ true
    → (admin == r.target_user_id) ≡ false
    → let banned = (ban_member now r.chat_id admin r.target_user_id g).1 in
      let g' = (store_approval later r.chat_id r.target_user_id id r banned).1 in
      (is_user_member r.chat_id r.target_user_id g' ≡ true)
      × (is_user_banned r.chat_id r.target_user_id g' ≡ true)
unfolding is_user_member is_user_banned any_row
ban_member-then_approval now later admin id r g found waits free leads two =
    let gone =
      any_row-deleted (takes_part r.chat_id r.target_user_id)
        (takes_part r.chat_id r.target_user_id) g.participants (λ x on. on) in
    let here : (r.chat_id == r.chat_id) ≡ true = ground arith in
    let self : (r.target_user_id == r.target_user_id) ≡ true = ground arith in
    let banned = banned-rows now r.chat_id admin r.target_user_id g free leads two in
    stored later id r _ (rw banned found) waits (rw (banned, gone) refl)
      (rw banned (rw (here, self) refl))
