-- ===== src/Friendship/Consent.antt =====
-- services/friend.service.go: which rows a command can make accepted.
use link_up_server.Base.{
  ℕ, ◌≡◌, inl, inr, sym, ap, ◌∙◌, true, false, ◌&&◌, Option, some, arith, ◌==◌, Dict, lookup,
  insert, erase, lookup-insert, lookup-erase, Bool-cases, Option-cases,
}
use link_up_server.Friendship.Table.{
  Friend, pending, accepted, is_pending, is_accepted, find_by_sender_and_receiver, update_status,
  delete_pair, accepted_between, find_pair,
}
use link_up_server.Friendship.Service.{
  Account, new_friend, send_or_revoke, toggle_friend_request, accept_friend_request,
  reject_friend_request, unfriend,
}
use link_up_server.Friendship.Queries.{lookup-remove_where}
use link_up_server.Friendship.Invariant.{RowsValid}
use link_up_server.Friendship.Steps.{Command, toggle, accept, reject, end_friendship, step}

-- An accepted row after a command was there before, or its receiver has accepted it by the command.
pub data Agreed (c : Command) (d : Dict Friend) (i : ℕ) (f : Friend) : Type 0 where
  before : lookup i d ≡ some f → Agreed c d i f
  now_accepted :
      (g : Friend)
      → c ≡ accept f.receiver_id i
      → lookup i d ≡ some g
      → g.status ≡ pending
      → f ≡ record g { status = accepted }
      → Agreed c d i f

-- The accepted rows of a table were there before.
abbrev pub Old : Dict Friend → Dict Friend → Type 0
Old d d' = (i : ℕ) (f : Friend) → lookup i d' ≡ some f → f.status ≡ accepted → lookup i d ≡ some f

same-Old : (d : Dict Friend) → Old d d
same-Old d i f at on = at

erase-Old : (id : ℕ) (d : Dict Friend) → Old d (erase id d)
erase-Old id d i f at on = ground (arith, lookup-erase i id d)

send_or_revoke-Old :
    (uuid now user target : ℕ) (d : Dict Friend) → Old d (send_or_revoke uuid now user target d).1
unfolding send_or_revoke
send_or_revoke-Old uuid now user target d =
    elim (Option-cases (find_by_sender_and_receiver user target d)) [
      | inl nothing ↦
          rw (nothing, send_or_revoke)
            (λ i f at on. ground (arith, lookup-insert i uuid (new_friend uuid now user target) d))
      | inr (f, e) ↦ elim (Bool-cases (is_pending f.status)) [
        | inr handled ↦ rw (e, handled, send_or_revoke) (same-Old d)
        | inl waits ↦ rw (e, waits, send_or_revoke) (erase-Old f.id d)
      ]
    ]

toggle-Old :
    (accounts : ℕ → Option Account) (uuid now user target : ℕ) (d : Dict Friend)
    → Old d (toggle_friend_request accounts uuid now user target d).1
unfolding toggle_friend_request
toggle-Old accounts uuid now user target d = elim (Bool-cases (target == 0)) [
  | inl empty ↦ rw (empty, toggle_friend_request) (same-Old d)
  | inr named ↦ elim (Bool-cases (user == target)) [
    | inl self ↦ rw (named, self, toggle_friend_request) (same-Old d)
    | inr two ↦ elim (Option-cases (accounts target)) [
      | inl unknown ↦ rw (named, two, unknown, toggle_friend_request) (same-Old d)
      | inr (account, known) ↦ elim (Bool-cases account.is_active) [
        | inr inactive ↦ rw (named, two, known, inactive, toggle_friend_request) (same-Old d)
        | inl active ↦ elim (Bool-cases account.is_admin) [
          | inl admin ↦ rw (named, two, known, active, admin, toggle_friend_request) (same-Old d)
          | inr plain ↦
              rw (named, two, known, active, plain, toggle_friend_request)
                (send_or_revoke-Old uuid now user target d)
        ]
      ]
    ]
  ]
]

reject-Old : (user id : ℕ) (d : Dict Friend) → Old d (reject_friend_request user id d).1
unfolding reject_friend_request
reject-Old user id d = elim (Option-cases (lookup id d)) [
  | inl missing ↦ rw (missing, reject_friend_request) (same-Old d)
  | inr (f, found) ↦ elim (Bool-cases (f.receiver_id == user && is_pending f.status)) [
    | inl waits ↦
        let receiver : (f.receiver_id == user) ≡ true = ground arith in
        let open_ : is_pending f.status ≡ true = ground arith in
        rw (found, receiver, open_, reject_friend_request) (erase-Old id d)
    | inr no_answer ↦ elim (Bool-cases (f.receiver_id == user)) [
      | inr stranger ↦ rw (found, stranger, reject_friend_request) (same-Old d)
      | inl receiver ↦
          let handled : is_pending f.status ≡ false = ground arith in
          rw (found, receiver, handled, reject_friend_request) (same-Old d)
    ]
  ]
]

unfriend-Old : (user target : ℕ) (d : Dict Friend) → RowsValid d → Old d (unfriend user target d).1
unfolding unfriend delete_pair
unfriend-Old user target d v = elim (Bool-cases (target == 0)) [
  | inl empty ↦ rw (empty, unfriend) (same-Old d)
  | inr named ↦ elim (Bool-cases (user == target)) [
    | inl self ↦ rw (named, self, unfriend) (same-Old d)
    | inr two ↦ elim (Option-cases (find_pair user target d)) [
      | inl missing ↦ rw (named, two, missing, unfriend) (same-Old d)
      | inr (f, found) ↦ elim (Bool-cases (is_accepted f.status)) [
        | inr other ↦ rw (named, two, found, other, unfriend) (same-Old d)
        | inl friends ↦
            rw (named, two, found, friends, unfriend)
              (λ i g at on. lookup-remove_where (accepted_between user target) d i g v.keys at)
      ]
    ]
  ]
]

abbrev pub AllAgreed : Command → Dict Friend → Dict Friend → Type 0
AllAgreed c d d' =
    (i : ℕ) (f : Friend) → lookup i d' ≡ some f → f.status ≡ accepted → Agreed c d i f

accepted-AllAgreed :
    (user id : ℕ) (g : Friend) (d : Dict Friend)
    → lookup id d ≡ some g
    → g.receiver_id ≡ user
    → g.status ≡ pending
    → AllAgreed (accept user id) d (insert id (record g { status = accepted }) d)
accepted-AllAgreed user id g d found receiver waits i f at on = elim (Bool-cases (i == id)) [
  | inr other ↦ before (ground (arith, lookup-insert i id (record g { status = accepted }) d))
  | inl here ↦
      let new : f ≡ record g { status = accepted } =
        ground (arith, lookup-insert i id (record g { status = accepted }) d) in
      let same : i ≡ id = ground arith in
      now_accepted g
        (ap (λ u. accept u id) (sym (ap (λ x. x.receiver_id) new ∙ receiver))
          ∙ ap (accept f.receiver_id) (sym same))
        (ap (λ j. lookup j d) same ∙ found) waits new
]

accept-AllAgreed :
    (user id : ℕ) (d : Dict Friend)
    → AllAgreed (accept user id) d (accept_friend_request user id d).1
unfolding accept_friend_request update_status
accept-AllAgreed user id d = elim (Option-cases (lookup id d)) [
  | inl missing ↦ rw (missing, accept_friend_request) (λ i f at on. before at)
  | inr (g, found) ↦ elim (Bool-cases (g.receiver_id == user)) [
    | inr stranger ↦ rw (found, stranger, accept_friend_request) (λ i f at on. before at)
    | inl receiver ↦ elim (Bool-cases (is_pending g.status)) [
      | inr handled ↦ rw (found, receiver, handled, accept_friend_request) (λ i f at on. before at)
      | inl waits ↦
          rw (found, receiver, waits, accept_friend_request)
            (rw (found, update_status)
              (accepted-AllAgreed user id g d found (ground arith) (ground arith)))
    ]
  ]
]

-- In a valid table, a command makes no row accepted but the one that it names, which was pending, and only if it is the acceptance by the
-- receiver of that request: every other accepted row after the command was the same before it.
pub step-Agreed :
    (accounts : ℕ → Option Account) (c : Command) (d : Dict Friend) (i : ℕ) (f : Friend)
    → RowsValid d
    → lookup i (step accounts c d) ≡ some f
    → f.status ≡ accepted
    → Agreed c d i f
unfolding step
step-Agreed accounts (toggle uuid now user target) d i f v at on =
    before (toggle-Old accounts uuid now user target d i f at on)
step-Agreed accounts (accept user id) d i f v at on = accept-AllAgreed user id d i f at on
step-Agreed accounts (reject user id) d i f v at on = before (reject-Old user id d i f at on)
step-Agreed accounts (end_friendship user target) d i f v at on =
    before (unfriend-Old user target d v i f at on)
