-- ===== src/Friendship/Pairs.antt =====
-- services/friend.service.go: what the operations on friend requests mean for a pair of users.
use link_up_server.Base.{
  ℕ, ◌≡◌, ◌≢◌, ◌<◌, inl, inr, refl, ap, ◌∙◌, true, false, Option, none, some, [], ◌∷◌, arith, ◌==◌,
  Dict, lookup, insert, Bool-cases, Option-cases,
}
use link_up_server.Friendship.Table.{
  Friend, is_accepted, find_by_sender_and_receiver, delete_pair, between, accepted_between,
  find_pair, is_accepted_friend,
}
use link_up_server.Friendship.Service.{
  Account, new_friend, send_or_revoke, ok, err, sent, unfriended, not_friends, friend_request,
  toggle_friend_request, unfriend, get_friend_status, relation_by, request_sent,
}
use link_up_server.Friendship.Queries.{
  first_where-insert, any_where-insert, any_where-lookup, any_where-remove_where,
}
use link_up_server.Friendship.Invariant.{RowsValid}

-- After Unfriend has succeeded, neither of the two is an accepted friend of the other.
unfriend-ends :
    (user target : ℕ) (d : Dict Friend)
    → (unfriend user target d).0 ≡ ok unfriended
    → is_accepted_friend user target (unfriend user target d).1 ≡ false
unfolding unfriend is_accepted_friend delete_pair
unfriend-ends user target d = elim (Bool-cases (target == 0)) [
  | inl empty ↦ rw (empty, unfriend) (λ h. absurd (ground arith))
  | inr named ↦ elim (Bool-cases (user == target)) [
    | inl self ↦ rw (named, self, unfriend) (λ h. absurd (ground arith))
    | inr two ↦ elim (Option-cases (find_pair user target d)) [
      | inl missing ↦ rw (named, two, missing, unfriend) (λ h. absurd (ground arith))
      | inr (f, found) ↦ elim (Bool-cases (is_accepted f.status)) [
        | inr other ↦ rw (named, two, found, other, unfriend) (λ h. absurd (ground arith))
        | inl friends ↦
            rw (named, two, found, friends, unfriend)
              (λ h. any_where-remove_where (accepted_between user target) d)
      ]
    ]
  ]
]

toggle_friend_request_sends :
    (accounts : ℕ → Option Account) (account : Account) (uuid now user target : ℕ) (d : Dict Friend)
    → (target == 0) ≡ false
    → (user == target) ≡ false
    → accounts target ≡ some account
    → account.is_active ≡ true
    → account.is_admin ≡ false
    → find_by_sender_and_receiver user target d ≡ none
    → toggle_friend_request accounts uuid now user target d
      ≡ (ok sent, insert uuid (new_friend uuid now user target) d, friend_request target user ∷ [])
unfolding toggle_friend_request send_or_revoke
toggle_friend_request_sends accounts account uuid now user target d named two known active plain
      no_row =
    rw (named, two, known, active, plain, toggle_friend_request) (rw (no_row, send_or_revoke) refl)

get_friend_status-pair :
    (user target : ℕ) (d : Dict Friend) (f : Friend)
    → (user == target) ≡ false
    → find_pair user target d ≡ some f
    → get_friend_status user target d ≡ relation_by user f
unfolding get_friend_status
get_friend_status-pair user target d f two e = rw (two, e, get_friend_status) refl

unfriend-pending :
    (user target : ℕ) (d : Dict Friend) (f : Friend)
    → (target == 0) ≡ false
    → (user == target) ≡ false
    → find_pair user target d ≡ some f
    → is_accepted f.status ≡ false
    → (unfriend user target d).0 ≡ err not_friends
unfolding unfriend
unfriend-pending user target d f named two e off = rw (named, two, e, off, unfriend) refl

-- If a user, with no row towards an account that is active and no admin, is an accepted friend of it by a row of the other direction, ToggleFriendRequest
-- still sends a request; and when the id of the new row is lower than that of the rows between the two, they count as accepted friends, but
-- GetFriendStatus answers the user that a request is sent, and Unfriend that they are not friends.
pub toggle_friend_request-hides_friend :
    (accounts : ℕ → Option Account) (account : Account) (uuid now user target i : ℕ) (f : Friend)
    (d : Dict Friend)
    → RowsValid d
    → target ≢ 0
    → user ≢ target
    → accounts target ≡ some account
    → account.is_active ≡ true
    → account.is_admin ≡ false
    → lookup i d ≡ some f
    → accepted_between target user f ≡ true
    → lookup uuid d ≡ none
    → find_by_sender_and_receiver user target d ≡ none
    → ((j : ℕ) (g : Friend) → lookup j d ≡ some g → between user target g ≡ true → uuid < g.id)
    → (let o = toggle_friend_request accounts uuid now user target d in
        (o.0 ≡ ok sent)
        × (is_accepted_friend user target o.1 ≡ true)
        × (get_friend_status user target o.1 ≡ request_sent uuid)
        × ((unfriend user target o.1).0 ≡ err not_friends))
unfolding find_pair is_accepted_friend
toggle_friend_request-hides_friend accounts account uuid now user target i f d v named ne known
      active plain at friends fresh no_row lower =
    let new = new_friend uuid now user target in
    let named' : (target == 0) ≡ false = ground arith in
    let two : (user == target) ≡ false = ground arith in
    let e =
      toggle_friend_request_sends accounts account uuid now user target d named' two known active
        plain no_row in
    let on : between user target new ≡ true = ground arith in
    let found = first_where-insert (between user target) new d on v.keys fresh lower in
    let still : accepted_between user target f ≡ true = ground arith in
    (
      ap (λ o. o.0) e,
      ap (λ o. is_accepted_friend user target o.1) e
          ∙ any_where-insert (accepted_between user target) uuid new d fresh
              (any_where-lookup (accepted_between user target) d i f at still),
      ap (λ o. get_friend_status user target o.1) e
          ∙ (get_friend_status-pair user target (insert uuid new d) new two found ∙ ground arith),
      ap (λ o. (unfriend user target o.1).0) e
          ∙ unfriend-pending user target (insert uuid new d) new named' two found refl,
    )
