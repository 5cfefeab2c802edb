-- ===== src/GroupChat/Tables.antt =====
-- models/chat.model.go, models/chat_participant.model.go, models/group_chat_*.model.go and the
-- statements of repository/group_chat.repository.go. The ids of the rows of participants and bans,
-- which nothing reads, are left out. The pair of chat and user is unique among participants, and
-- only there: the table of mutes has a plain index on it, so its `OnConflict` never applies.
use link_up_server.Base.{
  ℕ, Bool, true, false, not, ◌&&◌, Option, none, some, List, [], ◌∷◌, map, if◌then◌else◌, ◌==◌,
  Dict, lookup, insert, any_row, first_row, find_rows, delete_rows, change_rows, ltb,
}
use link_up_server.Text.{Text}

pub record Chat : Type 0 where
  pub is_group : Bool
  pub creator_id : Option ℕ
  pub name : Text
  pub avatar_uri : Text

pub data ChatRole : Type 0 where
  chat_admin chat_member : ChatRole

pub record ChatParticipant : Type 0 where
  pub chat_id : ℕ
  pub user_id : ℕ
  pub role : ChatRole
  pub joined_at : ℕ

pub record GroupChatBan : Type 0 where
  pub chat_id : ℕ
  pub user_id : ℕ
  pub banned_by : ℕ
  pub created_at : ℕ

pub data RequestStatus : Type 0 where
  pending approved rejected : RequestStatus

pub record MemberRequest : Type 0 where
  pub chat_id : ℕ
  pub requester_id : ℕ
  pub target_user_id : ℕ
  pub status : RequestStatus
  pub created_at : ℕ
  pub responded_at : Option ℕ

pub record GroupChatSettings : Type 0 where
  pub allow_member_add : Bool
  pub last_admin_transfer_at : Option ℕ

pub record MemberSettings : Type 0 where
  pub chat_id : ℕ
  pub user_id : ℕ
  pub notifications_enabled : Bool

pub record GroupChatMute : Type 0 where
  pub chat_id : ℕ
  pub user_id : ℕ
  pub muted_by : ℕ
  pub reason : Text
  pub expires_at : Option ℕ
  pub created_at : ℕ

pub record Groups : Type 0 where
  pub chats : Dict Chat
  pub participants : List ChatParticipant
  pub bans : List GroupChatBan
  pub requests : Dict MemberRequest
  pub settings : Dict GroupChatSettings
  pub member_settings : List MemberSettings
  pub mutes : Dict GroupChatMute

abbrev pub is_chat_admin : ChatRole → Bool
is_chat_admin chat_admin = true
is_chat_admin chat_member = false

abbrev pub is_pending : RequestStatus → Bool
is_pending pending = true
is_pending _ = false

-- `chat_id = ? AND user_id = ?`
abbrev pub takes_part : ℕ → ℕ → ChatParticipant → Bool
takes_part chat user p = p.chat_id == chat && p.user_id == user

-- `chat_id = ? AND role = 'CHAT_ADMIN'`
abbrev pub leads : ℕ → ChatParticipant → Bool
leads chat p = p.chat_id == chat && is_chat_admin p.role

-- `chat_id = ? AND user_id = ? AND role = 'CHAT_ADMIN'`
abbrev pub leads_as : ℕ → ℕ → ChatParticipant → Bool
leads_as chat user p = takes_part chat user p && is_chat_admin p.role

abbrev pub bars : ℕ → ℕ → GroupChatBan → Bool
bars chat user b = b.chat_id == chat && b.user_id == user

abbrev pub silences : ℕ → ℕ → GroupChatMute → Bool
silences chat user m = m.chat_id == chat && m.user_id == user

unfoldable pub is_user_member : ℕ → ℕ → Groups → Bool
is_user_member chat user g = any_row (takes_part chat user) g.participants

unfoldable pub is_user_admin : ℕ → ℕ → Groups → Bool
is_user_admin chat user g = any_row (leads_as chat user) g.participants

unfoldable pub is_user_banned : ℕ → ℕ → Groups → Bool
is_user_banned chat user g = any_row (bars chat user) g.bans

-- `Pluck("user_id")`
abbrev pub user_ids : List ChatParticipant → List ℕ
user_ids = map (λ p. p.user_id)

unfoldable pub get_admin_ids : ℕ → Groups → List ℕ
get_admin_ids chat g = user_ids (find_rows (leads chat) g.participants)

unfoldable pub get_participant_ids : ℕ → Groups → List ℕ
get_participant_ids chat g = user_ids (find_rows (λ p. p.chat_id == chat) g.participants)

-- The insertion of a participant; `none` is a violation of the unique index.
unfoldable pub insert_participant :
    ChatParticipant → List ChatParticipant → Option (List ChatParticipant)
insert_participant p ps =
    if any_row (takes_part p.chat_id p.user_id) ps then none else some (p ∷ ps)

unfoldable pub insert_participants :
    List ChatParticipant → List ChatParticipant → Option (List ChatParticipant)
insert_participants [] ps = some ps
insert_participants (p ∷ new) ps =
    let rest = insert_participants new ps in
    elim rest [ none ↦ none | some ps' ↦ insert_participant p ps' ]

-- CreateGroup; `none` is an error, which rolls back.
unfoldable pub insert_group : ℕ → Chat → List ChatParticipant → Groups → Option Groups
insert_group id chat new g = elim (lookup id g.chats) [
  | some other ↦ none
  | none ↦ elim (insert_participants new g.participants) [
    | none ↦ none
    | some ps ↦ some (record g { chats = insert id chat g.chats; participants = ps })
  ]
]

abbrev pub remove_participant : ℕ → ℕ → Groups → Groups
remove_participant chat user g = record g {
  participants = delete_rows (takes_part chat user) g.participants;
}

-- BanUser
abbrev pub ban_user : GroupChatBan → Groups → Groups
ban_user ban g = record g {
  participants = delete_rows (takes_part ban.chat_id ban.user_id) g.participants;
  bans = ban ∷ g.bans;
}

-- GetSettings
unfoldable pub get_settings : ℕ → Groups → GroupChatSettings
get_settings chat g = elim (lookup chat g.settings) [
  | none ↦ record { allow_member_add = true; last_admin_transfer_at = none }
  | some s ↦ s
]

abbrev pub with_role : ChatRole → ChatParticipant → ChatParticipant
with_role role p = record p { role = role }

-- The upsert at the end of TransferAdmin and of TransferOwnership.
abbrev pub note_transfer : ℕ → ℕ → Groups → Dict GroupChatSettings
note_transfer chat now g =
    insert chat (record (get_settings chat g) { last_admin_transfer_at = some now }) g.settings

-- TransferAdmin
unfoldable pub move_admin : ℕ → ℕ → ℕ → ℕ → Groups → Groups
move_admin chat requester target now g = record g {
  participants =
      change_rows (takes_part chat target) (with_role chat_admin)
        (change_rows (leads_as chat requester) (with_role chat_member) g.participants);
  settings = note_transfer chat now g;
}

-- TransferOwnership
unfoldable pub move_ownership : ℕ → ℕ → ℕ → Bool → ℕ → Groups → Groups
move_ownership chat old new keep_admin now g =
    let raised = change_rows (takes_part chat new) (with_role chat_admin) g.participants in
    record g {
      chats = elim (lookup chat g.chats) [
        | none ↦ g.chats
        | some c ↦ insert chat (record c { creator_id = some new }) g.chats
      ];
      participants =
          if keep_admin
          then raised
          else change_rows (leads_as chat old) (with_role chat_member) raised;
      settings = note_transfer chat now g;
    }

-- ApproveMemberRequest; `none` is an error, which rolls back.
unfoldable pub accept_request : ℕ → ℕ → Groups → Option Groups
accept_request id now g = elim (lookup id g.requests) [
  | none ↦ none
  | some request ↦
      if not (is_pending request.status)
      then none
      else elim (insert_participant
          (record {
            chat_id = request.chat_id;
            user_id = request.target_user_id;
            role = chat_member;
            joined_at = now;
          })
          g.participants) [
            | none ↦ none
            | some ps ↦ some (record g {
              participants = ps;
              requests =
                  insert id (record request { status = approved; responded_at = some now })
                    g.requests;
            })
          ]
]

-- UnmuteUser
unfoldable pub delete_mutes : ℕ → ℕ → Groups → Groups
delete_mutes chat user g = record g { mutes = delete_rows (λ e. silences chat user e.1) g.mutes }

abbrev pub has_expired : ℕ → GroupChatMute → Bool
has_expired now m = elim m.expires_at [ none ↦ false | some t ↦ ltb t now ]

-- GetUserMute of repository/chat.repository.go
unfoldable pub get_user_mute : ℕ → ℕ → ℕ → Groups → Option GroupChatMute × Groups
get_user_mute now chat user g = elim (first_row (silences chat user) g.mutes) [
  | none ↦ (none, g)
  | some (i, m) ↦ if has_expired now m then (none, delete_mutes chat user g) else (some m, g)
]
