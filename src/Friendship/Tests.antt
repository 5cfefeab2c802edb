-- ===== src/Friendship/Tests.antt =====
-- The theorems on friend requests at concrete tables.
use link_up_server.Base.{
  ℕ, ◌≡◌, refl, true, false, Option, some, [], ◌∷◌, arith, Dict, lookup, insert,
}
use link_up_server.Friendship.Table.{
  Friend, pending, accepted, is_accepted_friend, find_by_sender_and_receiver, first_where,
  update_status,
}
use link_up_server.Friendship.Service.{
  Account, toggle_friend_request, send_or_revoke, accept_friend_request, unfriend,
  get_friend_status, ok, err, sent, not_friends, request_sent,
}
use link_up_server.Friendship.Invariant.{RowsValid}
use link_up_server.Friendship.Steps.{toggle, accept, step, start, next, Reach, Reach-RowsValid}
use link_up_server.Friendship.Consent.{Agreed, step-Agreed}
use link_up_server.Friendship.Pairs.{toggle_friend_request-hides_friend}

-- Everybody has an active account and is no admin.
abbrev plain : Account
plain = record { is_active = true; is_admin = false }

abbrev accounts : ℕ → Option Account
accounts u = some plain

-- User 2 has asked user 1; then user 1 accepts.
abbrev request : Friend
request = record { id = 9; sender_id = 2; receiver_id = 1; status = pending; created_at = 5 }

abbrev friends : Dict Friend
friends = (9, record request { status = accepted }) ∷ []

asked : Reach ((9, request) ∷ [])
unfolding step toggle_friend_request send_or_revoke find_by_sender_and_receiver first_where insert
asked = next accounts (toggle 9 5 2 1) [] start

befriended : Reach friends
unfolding step accept_friend_request update_status lookup insert
befriended = next accounts (accept 1 9) ((9, request) ∷ []) asked

Reach-RowsValid_example : RowsValid friends
Reach-RowsValid_example = Reach-RowsValid friends befriended

step-Agreed_example :
    Agreed (accept 1 9) ((9, request) ∷ []) 9 (record request { status = accepted })
unfolding step accept_friend_request update_status lookup insert
step-Agreed_example =
    step-Agreed accounts (accept 1 9) ((9, request) ∷ []) 9 (record request { status = accepted })
      (Reach-RowsValid ((9, request) ∷ []) asked) refl refl

-- The friends of 1 include 2, and 1 sends 2 a request whose id is 4.
toggle_friend_request-hides_friend_example :
    ((toggle_friend_request accounts 4 7 1 2 friends).0 ≡ ok sent)
    × (is_accepted_friend 1 2 (toggle_friend_request accounts 4 7 1 2 friends).1 ≡ true)
    × (get_friend_status 1 2 (toggle_friend_request accounts 4 7 1 2 friends).1 ≡ request_sent 4)
    × ((unfriend 1 2 (toggle_friend_request accounts 4 7 1 2 friends).1).0 ≡ err not_friends)
unfolding lookup find_by_sender_and_receiver first_where
toggle_friend_request-hides_friend_example =
    toggle_friend_request-hides_friend accounts plain 4 7 1 2 9
      (record request { status = accepted }) friends (Reach-RowsValid friends befriended)
      (λ e. ground arith) (λ e. ground arith) refl refl refl refl refl refl refl
      (λ j g at b. ground arith)
