-- ===== src/Friendship/Table.antt =====
-- models/friend.model.go and repository/friend.repository.go: the rows of `friends`, and the
-- statements on them. `First` of gorm takes the row with the least id.
use link_up_server.Base.{
  ℕ, Bool, true, false, ◌&&◌, ◌||◌, Option, none, some, [], ◌∷◌, if◌then◌else◌, ltb, ◌==◌, Dict,
  lookup, insert,
}

pub data FriendStatus : Type 0 where
  pending accepted rejected : FriendStatus

abbrev pub is_pending : FriendStatus → Bool
is_pending pending = true
is_pending _ = false

abbrev pub is_accepted : FriendStatus → Bool
is_accepted accepted = true
is_accepted _ = false

pub record Friend : Type 0 where
  pub id : ℕ
  pub sender_id : ℕ
  pub receiver_id : ℕ
  pub status : FriendStatus
  pub created_at : ℕ

abbrev pub least : Friend → Option Friend → Option Friend
least f none = some f
least f (some g) = if ltb g.id f.id then some g else some f

-- The first row with a property.
unfoldable pub first_where : (Friend → Bool) → Dict Friend → Option Friend
first_where p [] = none
first_where p ((i, f) ∷ d) = let rest = first_where p d in if p f then least f rest else rest

unfoldable pub any_where : (Friend → Bool) → Dict Friend → Bool
any_where p [] = false
any_where p ((i, f) ∷ d) = p f || any_where p d

unfoldable pub remove_where : (Friend → Bool) → Dict Friend → Dict Friend
remove_where p [] = []
remove_where p ((i, f) ∷ d) = let rest = remove_where p d in if p f then rest else (i, f) ∷ rest

abbrev pub sent_by_to : ℕ → ℕ → Friend → Bool
sent_by_to sender receiver f = f.sender_id == sender && f.receiver_id == receiver

abbrev pub between : ℕ → ℕ → Friend → Bool
between a b f = sent_by_to a b f || sent_by_to b a f

abbrev pub accepted_between : ℕ → ℕ → Friend → Bool
accepted_between a b f = between a b f && is_accepted f.status

unfoldable pub is_accepted_friend : ℕ → ℕ → Dict Friend → Bool
is_accepted_friend a b d = any_where (accepted_between a b) d

unfoldable pub find_by_sender_and_receiver : ℕ → ℕ → Dict Friend → Option Friend
find_by_sender_and_receiver sender receiver d = first_where (sent_by_to sender receiver) d

unfoldable pub find_pair : ℕ → ℕ → Dict Friend → Option Friend
find_pair a b d = first_where (between a b) d

unfoldable pub update_status : ℕ → FriendStatus → Dict Friend → Dict Friend
update_status id status d = elim (lookup id d) [
  | none ↦ d
  | some f ↦ insert id (record f { status = status }) d
]

unfoldable pub delete_pair : ℕ → ℕ → Dict Friend → Dict Friend
delete_pair a b d = remove_where (accepted_between a b) d
