-- ===== src/Friendship/Service.antt =====
-- services/friend.service.go with validations/friend.validation.go: the operations on friend
-- requests. A notification is an effect; what the accounts say of the target is a parameter.
use link_up_server.Base.{
  ℕ, Bool, not, Option, none, some, List, [], ◌∷◌, if◌then◌else◌, ◌==◌, Dict, lookup, insert, erase,
}
use link_up_server.Friendship.Table.{
  Friend, pending, accepted, rejected, is_pending, is_accepted, find_by_sender_and_receiver,
  find_pair, update_status, delete_pair,
}

pub data FriendError : Type 0 where
  target_required self_request user_not_found user_inactive admin_restricted request_handled
        not_found not_authorized already_processed target_required_unfriend self_unfriend
        not_friends :
      FriendError

-- The `Status` of an answer.
pub data Answer : Type 0 where
  revoked sent accepted_request rejected_request unfriended : Answer

pub data Result : Type 0 where
  ok : Answer → Result
  err : FriendError → Result

-- The receiver and the sender of a notification.
pub data Effect : Type 0 where
  friend_request friend_accepted : ℕ → ℕ → Effect

-- A user, and whether it has the role ADMIN or SUPER_ADMIN.
pub record Account : Type 0 where
  pub is_active : Bool
  pub is_admin : Bool

abbrev pub new_friend : ℕ → ℕ → ℕ → ℕ → Friend
new_friend uuid now user target = record {
  id = uuid;
  sender_id = user;
  receiver_id = target;
  status = pending;
  created_at = now;
}

-- ToggleFriendRequest from the query for a row on; the id of a new row is not in use.
unfoldable pub send_or_revoke : ℕ → ℕ → ℕ → ℕ → Dict Friend → Result × Dict Friend × List Effect
send_or_revoke uuid now user target d = elim (find_by_sender_and_receiver user target d) [
  | some f ↦
      if not (is_pending f.status)
      then (err request_handled, d, [])
      else (ok revoked, erase f.id d, [])
  | none ↦
      (ok sent, insert uuid (new_friend uuid now user target) d, friend_request target user ∷ [])
]

-- ToggleFriendRequest
unfoldable pub toggle_friend_request :
    (ℕ → Option Account) → ℕ → ℕ → ℕ → ℕ → Dict Friend → Result × Dict Friend × List Effect
toggle_friend_request accounts uuid now user target d =
    if target == 0
    then (err target_required, d, [])
    else if user == target
    then (err self_request, d, [])
    else elim (accounts target) [
      | none ↦ (err user_not_found, d, [])
      | some account ↦
          if not account.is_active
          then (err user_inactive, d, [])
          else if account.is_admin
          then (err admin_restricted, d, [])
          else send_or_revoke uuid now user target d
    ]

unfoldable pub accept_friend_request : ℕ → ℕ → Dict Friend → Result × Dict Friend × List Effect
accept_friend_request user id d = elim (lookup id d) [
  | none ↦ (err not_found, d, [])
  | some f ↦
      if not (f.receiver_id == user)
      then (err not_authorized, d, [])
      else if not (is_pending f.status)
      then (err already_processed, d, [])
      else (ok accepted_request, update_status id accepted d, friend_accepted f.sender_id user ∷ [])
]

unfoldable pub reject_friend_request : ℕ → ℕ → Dict Friend → Result × Dict Friend × List Effect
reject_friend_request user id d = elim (lookup id d) [
  | none ↦ (err not_found, d, [])
  | some f ↦
      if not (f.receiver_id == user)
      then (err not_authorized, d, [])
      else if not (is_pending f.status)
      then (err already_processed, d, [])
      else (ok rejected_request, erase id d, [])
]

unfoldable pub unfriend : ℕ → ℕ → Dict Friend → Result × Dict Friend × List Effect
unfriend user target d =
    if target == 0
    then (err target_required_unfriend, d, [])
    else if user == target
    then (err self_unfriend, d, [])
    else elim (find_pair user target d) [
      | none ↦ (err not_friends, d, [])
      | some f ↦
          if not (is_accepted f.status)
          then (err not_friends, d, [])
          else (ok unfriended, delete_pair user target d, [])
    ]

-- The `Status` of FriendStatusResponse, with the id of the request.
pub data Relation : Type 0 where
  self none_yet friends : Relation
  request_sent request_received : ℕ → Relation

abbrev pub relation_by : ℕ → Friend → Relation
relation_by user f = elim f.status [
  | accepted ↦ friends
  | pending ↦ if f.sender_id == user then request_sent f.id else request_received f.id
  | rejected ↦ none_yet
]

unfoldable pub get_friend_status : ℕ → ℕ → Dict Friend → Relation
get_friend_status user target d =
    if user == target
    then self
    else elim (find_pair user target d) [ none ↦ none_yet | some f ↦ relation_by user f ]
