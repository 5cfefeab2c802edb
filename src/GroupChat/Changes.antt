-- ===== src/GroupChat/Changes.antt =====
-- services/group_chat.service.go: what the operations do to participants and bans, by cases.
pub mod Members
pub mod Rest
use link_up_server.Base.{
  ℕ, ◌≡◌, refl, Bool, true, false, none, some, List, ◌∷◌, lookup, delete_rows, change_rows,
}
use link_up_server.Text.{Text}
use link_up_server.GroupChat.Tables.{
  Chat, GroupChatBan, MemberRequest, Groups, chat_admin, chat_member, takes_part, leads_as,
  with_role, is_pending, is_user_admin, is_user_banned, insert_participants,
}
use link_up_server.GroupChat.Service.{other_members, new_members}
use link_up_server.GroupChat.Machine.{Command, create, approve}

-- No chat has a creator.
abbrev pub NoCreator : Groups → Type 0
NoCreator g = (i : ℕ) (chat : Chat) → lookup i g.chats ≡ some chat → chat.creator_id ≡ none

-- Each case ends with what it does to the creators.
pub data Change (c : Command) (g : Groups) : Groups → Type 0 where
  unchanged :
      (g' : Groups)
      → g'.participants ≡ g.participants
      → g'.bans ≡ g.bans
      → (NoCreator g → NoCreator g')
      → Change c g g'
  founded :
      (g' : Groups) (uuid now user : ℕ) (fails : Bool) (name avatar : Text) (ids : List ℕ)
      → c ≡ create uuid now fails user name avatar ids
      → insert_participants
          (record { chat_id = uuid; user_id = user; role = chat_admin; joined_at = now }
            ∷ new_members uuid now (other_members user ids))
          g.participants
        ≡ some g'.participants
      → g'.bans ≡ g.bans
      → (NoCreator g → NoCreator g')
      → Change c g g'
  left_by :
      (g' : Groups) (chat user : ℕ)
      → g'.participants ≡ delete_rows (takes_part chat user) g.participants
      → g'.bans ≡ g.bans
      → (NoCreator g → NoCreator g')
      → Change c g g'
  barred :
      (g' : Groups) (b : GroupChatBan)
      → g'.participants ≡ delete_rows (takes_part b.chat_id b.user_id) g.participants
      → g'.bans ≡ b ∷ g.bans
      → (NoCreator g → NoCreator g')
      → Change c g g'
  joined :
      (g' : Groups) (now chat target id : ℕ) (request : MemberRequest)
      → c ≡ approve now chat target id
      → lookup id g.requests ≡ some request
      → request.chat_id ≡ chat
      → request.target_user_id ≡ target
      → is_pending request.status ≡ true
      → is_user_banned chat target g ≡ false
      → g'.participants
        ≡ record {
          chat_id = request.chat_id;
          user_id = request.target_user_id;
          role = chat_member;
          joined_at = now;
        }
          ∷ g.participants
      → g'.bans ≡ g.bans
      → (NoCreator g → NoCreator g')
      → Change c g g'
  passed :
      (g' : Groups) (chat requester target : ℕ)
      → is_user_admin chat requester g ≡ true
      → g'.participants
        ≡ change_rows
            (takes_part chat target)
            (with_role chat_admin)
            (change_rows (leads_as chat requester) (with_role chat_member) g.participants)
      → g'.bans ≡ g.bans
      → (NoCreator g → NoCreator g')
      → Change c g g'

-- A command that writes nothing.
pub same : (g : Groups) (c : Command) → Change c g g
same g c = unchanged g refl refl (λ h. h)
