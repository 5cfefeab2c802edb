-- ===== src/GroupChat/Mutes.antt =====
-- services/group_chat.service.go and repository/chat.repository.go: mutes.
use link_up_server.Base.{
  ℕ, ◌≡◌, ◌≤◌, refl, true, false, Option, none, some, arith, Distinct, lookup, first_row, FirstRow,
  first_row-FirstRow, any_row, any_row-deleted,
}
use link_up_server.GroupChat.Tables.{
  GroupChatMute, Groups, silences, has_expired, get_user_mute, delete_mutes,
}

-- When the mute of a user with the least id has expired, then the next check of the user, which every message makes, finds no mute
-- and deletes all mutes of the user in the chat, whatever others there are, permanent ones too.
pub get_user_mute-forgets :
    (now chat user i : ℕ) (old : GroupChatMute) (g : Groups)
    → Distinct g.mutes
    → lookup i g.mutes ≡ some old
    → silences chat user old ≡ true
    → has_expired now old ≡ true
    → ((j : ℕ) (m : GroupChatMute)
        → lookup j g.mutes ≡ some m
        → silences chat user m ≡ true
        → i ≤ j)
    → ((get_user_mute now chat user g).0 ≡ none)
      × (any_row (λ e. silences chat user e.1) (get_user_mute now chat user g).1.mutes ≡ false)
unfolding get_user_mute delete_mutes
get_user_mute-forgets now chat user i old g keys at mine over least =
    let found = first_row-FirstRow (silences chat user) g.mutes keys in
    let is_old : first_row (silences chat user) g.mutes ≡ some (i, old) =
      first (first_row (silences chat user) g.mutes) found in
    rw (is_old, over, get_user_mute)
      (
        refl,
        any_row-deleted (λ e. silences chat user e.1) (λ e. silences chat user e.1) g.mutes
            (λ e h. h),
      )
  where
    first :
        (o : Option (ℕ × GroupChatMute))
        → FirstRow (silences chat user) g.mutes o
        → o ≡ some (i, old)
    first none none_there =
        let off : silences chat user old ≡ false = none_there i old at in absurd (ground arith)
    first (some (j, m)) (at', on, least') =
        let same : j ≡ i = ground (arith, least j m at' on, least' i old at mine) in ground arith
