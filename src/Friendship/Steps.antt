-- ===== src/Friendship/Steps.antt =====
-- services/friend.service.go: the operations as commands, and the tables that they reach.
use link_up_server.Base.{
  ℕ, ◌≡◌, inl, inr, refl, subst, false, Option, [], arith, ◌==◌, Dict, lookup, Bool-cases,
  Option-cases,
}
use link_up_server.Friendship.Table.{
  Friend, is_pending, is_accepted, find_by_sender_and_receiver, update_status, delete_pair,
  sent_by_to, accepted_between, find_pair, first_where,
}
use link_up_server.Friendship.Service.{
  Account, new_friend, send_or_revoke, toggle_friend_request, accept_friend_request,
  reject_friend_request, unfriend,
}
use link_up_server.Friendship.Queries.{
  Found, first_where-Found, lookup-remove_where, remove_where-Distinct,
}
use link_up_server.Friendship.Invariant.{
  RowsValid, fewer-RowsValid, erase-RowsValid, new-RowsValid, accept-RowsValid,
}

pub data Command : Type 0 where
  toggle : ℕ → ℕ → ℕ → ℕ → Command
  accept : ℕ → ℕ → Command
  reject : ℕ → ℕ → Command
  end_friendship : ℕ → ℕ → Command

unfoldable pub step : (ℕ → Option Account) → Command → Dict Friend → Dict Friend
step accounts (toggle uuid now user target) d =
    (toggle_friend_request accounts uuid now user target d).1
step accounts (accept user id) d = (accept_friend_request user id d).1
step accounts (reject user id) d = (reject_friend_request user id d).1
step accounts (end_friendship user target) d = (unfriend user target d).1

written-RowsValid :
    (uuid now user target : ℕ) (d : Dict Friend)
    → RowsValid d
    → (user == target) ≡ false
    → RowsValid (send_or_revoke uuid now user target d).1
unfolding send_or_revoke find_by_sender_and_receiver
written-RowsValid uuid now user target d v two =
    let found = first_where-Found (sent_by_to user target) d v.keys in
    elim (Option-cases (first_where (sent_by_to user target) d)) [
      | inl nothing ↦
          rw (nothing, send_or_revoke)
            (new-RowsValid (new_friend uuid now user target) d v refl (ground arith)
              (subst (Found (sent_by_to user target) d) nothing found))
      | inr (f, e) ↦ elim (Bool-cases (is_pending f.status)) [
        | inr handled ↦ rw (e, handled, send_or_revoke) v
        | inl waits ↦ rw (e, waits, send_or_revoke) (erase-RowsValid f.id d v)
      ]
    ]

toggle-RowsValid :
    (accounts : ℕ → Option Account) (uuid now user target : ℕ) (d : Dict Friend)
    → RowsValid d
    → RowsValid (toggle_friend_request accounts uuid now user target d).1
unfolding toggle_friend_request
toggle-RowsValid accounts uuid now user target d v = elim (Bool-cases (target == 0)) [
  | inl empty ↦ rw (empty, toggle_friend_request) v
  | inr named ↦ elim (Bool-cases (user == target)) [
    | inl self ↦ rw (named, self, toggle_friend_request) v
    | inr two ↦ elim (Option-cases (accounts target)) [
      | inl unknown ↦ rw (named, two, unknown, toggle_friend_request) v
      | inr (account, known) ↦ elim (Bool-cases account.is_active) [
        | inr inactive ↦ rw (named, two, known, inactive, toggle_friend_request) v
        | inl active ↦ elim (Bool-cases account.is_admin) [
          | inl admin ↦ rw (named, two, known, active, admin, toggle_friend_request) v
          | inr plain ↦
              rw (named, two, known, active, plain, toggle_friend_request)
                (written-RowsValid uuid now user target d v two)
        ]
      ]
    ]
  ]
]

accept_friend_request-RowsValid :
    (user id : ℕ) (d : Dict Friend) → RowsValid d → RowsValid (accept_friend_request user id d).1
unfolding accept_friend_request update_status
accept_friend_request-RowsValid user id d v = elim (Option-cases (lookup id d)) [
  | inl missing ↦ rw (missing, accept_friend_request) v
  | inr (f, found) ↦ elim (Bool-cases (f.receiver_id == user)) [
    | inr stranger ↦ rw (found, stranger, accept_friend_request) v
    | inl receiver ↦ elim (Bool-cases (is_pending f.status)) [
      | inr handled ↦ rw (found, receiver, handled, accept_friend_request) v
      | inl waits ↦
          rw (found, receiver, waits, accept_friend_request)
            (rw (found, update_status) (accept-RowsValid id f d v found))
    ]
  ]
]

reject_friend_request-RowsValid :
    (user id : ℕ) (d : Dict Friend) → RowsValid d → RowsValid (reject_friend_request user id d).1
unfolding reject_friend_request
reject_friend_request-RowsValid user id d v = elim (Option-cases (lookup id d)) [
  | inl missing ↦ rw (missing, reject_friend_request) v
  | inr (f, found) ↦ elim (Bool-cases (f.receiver_id == user)) [
    | inr stranger ↦ rw (found, stranger, reject_friend_request) v
    | inl receiver ↦ elim (Bool-cases (is_pending f.status)) [
      | inr handled ↦ rw (found, receiver, handled, reject_friend_request) v
      | inl waits ↦ rw (found, receiver, waits, reject_friend_request) (erase-RowsValid id d v)
    ]
  ]
]

delete_pair-RowsValid : (a b : ℕ) (d : Dict Friend) → RowsValid d → RowsValid (delete_pair a b d)
unfolding delete_pair
delete_pair-RowsValid a b d v =
    fewer-RowsValid d _ v (remove_where-Distinct (accepted_between a b) d v.keys)
      (λ i f at. lookup-remove_where (accepted_between a b) d i f v.keys at)

unfriend-RowsValid :
    (user target : ℕ) (d : Dict Friend) → RowsValid d → RowsValid (unfriend user target d).1
unfolding unfriend
unfriend-RowsValid user target d v = elim (Bool-cases (target == 0)) [
  | inl empty ↦ rw (empty, unfriend) v
  | inr named ↦ elim (Bool-cases (user == target)) [
    | inl self ↦ rw (named, self, unfriend) v
    | inr two ↦ elim (Option-cases (find_pair user target d)) [
      | inl missing ↦ rw (named, two, missing, unfriend) v
      | inr (f, found) ↦ elim (Bool-cases (is_accepted f.status)) [
        | inr other ↦ rw (named, two, found, other, unfriend) v
        | inl friends ↦
            rw (named, two, found, friends, unfriend) (delete_pair-RowsValid user target d v)
      ]
    ]
  ]
]

step-RowsValid :
    (accounts : ℕ → Option Account) (c : Command) (d : Dict Friend)
    → RowsValid d
    → RowsValid (step accounts c d)
unfolding step
step-RowsValid accounts (toggle uuid now user target) d v =
    toggle-RowsValid accounts uuid now user target d v
step-RowsValid accounts (accept user id) d v = accept_friend_request-RowsValid user id d v
step-RowsValid accounts (reject user id) d v = reject_friend_request-RowsValid user id d v
step-RowsValid accounts (end_friendship user target) d v = unfriend-RowsValid user target d v

-- The tables that commands reach from an empty one, while the accounts may change.
pub data Reach : Dict Friend → Type 0 where
  start : Reach []
  next :
      (accounts : ℕ → Option Account) (c : Command) (d : Dict Friend)
      → Reach d
      → Reach (step accounts c d)

empty-RowsValid : RowsValid []
unfolding lookup
empty-RowsValid = record {
  keys = tt;
  ids = λ i f at. absurd (ground arith);
  parties = λ i f at. absurd (ground arith);
  statuses = λ i f at. absurd (ground arith);
  once = λ i j f g at. absurd (ground arith);
}

-- In every table of friend requests that commands reach from an empty one, whatever the accounts are at each step, no id stands
-- twice, each row stands under its id, links two different users and is pending or accepted, and there is at most
-- one row from one user to another.
pub Reach-RowsValid : (d : Dict Friend) → Reach d → RowsValid d
Reach-RowsValid _ start = empty-RowsValid
Reach-RowsValid _ (next accounts c d r) = step-RowsValid accounts c d (Reach-RowsValid d r)
