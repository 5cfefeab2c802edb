-- ===== src/GroupChat/Service.antt =====
-- services/group_chat.service.go with validations/group_chat.validation.go: the operations on group
-- chats. Messages and notifications are effects; time and ids come with each call.
use link_up_server.Base.{
  ℕ, ◌+◌, Bool, true, not, ◌&&◌, ◌||◌, none, some, List, [], ◌∷◌, ◌++◌, if◌then◌else◌, ltb, ◌==◌,
}
use link_up_server.Text.{Text, codes, text_eq, trim_space, to_lower}
use link_up_server.GroupChat.Tables.{
  ChatParticipant, MemberSettings, Groups, RequestStatus, chat_admin, chat_member, is_user_member,
  is_user_admin, is_user_banned, get_admin_ids, get_participant_ids, insert_group,
  remove_participant, ban_user,
}

pub data GroupError : Type 0 where
  invalid_name encryption_key_failed create_failed not_member invalid_leave_mode
        invalid_history_mode self_ban admin_only already_banned self_invite not_admin_invite banned
        already_member pending_request request_not_found request_not_own request_already_handled
        approve_failed transfer_to_self target_not_member admin_cooldown chat_not_found
        only_creator_transfer not_group_transfer self_mute not_member_mute invalid_mute_reason
        invalid_mute_duration admin_only_name invalid_group_name admin_only_avatar
        admin_only_config :
      GroupError

pub data Result : Type 0 where
  ok : Result
  err : GroupError → Result

-- What the messages of the system and the notifications are about.
pub data Topic : Type 0 where
  added left left_in_public banned_by_admin invited accepted_invitation rejected_invitation
        became_admin became_owner muted unmuted name_changed avatar_changed :
      Topic

pub data Effect : Type 0 where
  -- The chat, the topic, the actor, and what else the message names.
  system_message : ℕ → Topic → ℕ → Text → Effect
  notify : List ℕ → Topic → Effect
  anonymize_messages : ℕ → ℕ → Effect
  -- An invitation in the direct chat of two users, and its new status.
  invite_message : ℕ → ℕ → ℕ → Effect
  invite_status : ℕ → RequestStatus → Effect

abbrev pub Outcome : Type 0
Outcome = Result × Groups × List Effect

abbrev pub fail : GroupError → Groups → Outcome
fail e g = (err e, g, [])

-- isNotificationsEnabled
unfoldable pub is_notified : ℕ → ℕ → List MemberSettings → Bool
is_notified chat user [] = true
is_notified chat user (s ∷ rest) =
    if s.chat_id == chat && s.user_id == user
    then s.notifications_enabled
    else is_notified chat user rest

unfoldable pub enabled_ids : ℕ → List ℕ → Groups → List ℕ
enabled_ids chat [] g = []
enabled_ids chat (id ∷ ids) g =
    let rest = enabled_ids chat ids g in
    if is_notified chat id g.member_settings then id ∷ rest else rest

-- CreateBulk for those of the users who want it, if there are any.
abbrev pub notify_enabled : ℕ → List ℕ → Topic → Groups → List Effect
notify_enabled chat ids topic g = elim (enabled_ids chat ids g) [
  | [] ↦ []
  | id ∷ rest ↦ notify (id ∷ rest) topic ∷ []
]

abbrev pub utf8_length : ℕ → ℕ
utf8_length c = if ltb c 0x80 then 1 else if ltb c 0x800 then 2 else if ltb c 0x10000 then 3 else 4

-- `len` of a string
unfoldable pub byte_length : Text → ℕ
byte_length [] = 0
byte_length (c ∷ s) = utf8_length c + byte_length s

-- `memberID == userID || memberID == ""`
unfoldable pub other_members : ℕ → List ℕ → List ℕ
other_members user [] = []
other_members user (id ∷ ids) =
    let rest = other_members user ids in if id == user || id == 0 then rest else id ∷ rest

unfoldable pub new_members : ℕ → ℕ → List ℕ → List ChatParticipant
new_members chat now [] = []
new_members chat now (id ∷ ids) =
    record { chat_id = chat; user_id = id; role = chat_member; joined_at = now }
    ∷ new_members chat now ids

-- CreateGroup; the flag is whether no key can be made.
unfoldable pub create_group : ℕ → ℕ → Bool → ℕ → Text → Text → List ℕ → Groups → Outcome
create_group uuid now key_fails user name avatar ids g =
    if ltb (byte_length name) 3 || ltb 50 (byte_length name)
    then fail invalid_name g
    else if key_fails
    then fail encryption_key_failed g
    else let members = other_members user ids in
      elim (insert_group uuid
        (record { is_group = true; creator_id = none; name = name; avatar_uri = avatar })
        (record { chat_id = uuid; user_id = user; role = chat_admin; joined_at = now }
          ∷ new_members uuid now members)
        g) [
          | none ↦ fail create_failed g
          | some g' ↦ (ok, g', notify_enabled uuid members added g')
        ]

-- An empty mode is the default one.
abbrev pub mode_or : Text → Text → Text
mode_or default mode = let m = to_lower (trim_space mode) in if text_eq m [] then default else m

abbrev pub leave_topic : Bool → Topic
leave_topic in_public = if in_public then left_in_public else left

-- LeaveGroup once the modes are read.
unfoldable pub leave_as : ℕ → ℕ → Bool → Bool → Groups → Outcome
leave_as chat user in_public anonymize g =
    let g' = remove_participant chat user g in
    let told =
      other_members user
        (if in_public then get_participant_ids chat g' else get_admin_ids chat g') in
    (
      ok,
      g',
      (if anonymize then anonymize_messages chat user ∷ [] else [])
          ++ (if in_public then system_message chat left user [] ∷ [] else [])
          ++ notify_enabled chat told (leave_topic in_public) g',
    )

-- LeaveGroup
unfoldable pub leave_group : ℕ → ℕ → Text → Text → Groups → Outcome
leave_group chat user leave_mode history_mode g =
    let leave = mode_or (codes "public") leave_mode in
    let history = mode_or (codes "keep") history_mode in
    if not (is_user_member chat user g)
    then fail not_member g
    else if not (text_eq leave (codes "silent")) && not (text_eq leave (codes "public"))
    then fail invalid_leave_mode g
    else if not (text_eq history (codes "keep")) && not (text_eq history (codes "anonymize"))
    then fail invalid_history_mode g
    else leave_as chat user (text_eq leave (codes "public")) (text_eq history (codes "anonymize")) g

unfoldable pub ban_member : ℕ → ℕ → ℕ → ℕ → Groups → Outcome
ban_member now chat admin target g =
    if admin == target
    then fail self_ban g
    else if not (is_user_admin chat admin g)
    then fail admin_only g
    else if is_user_banned chat target g
    then fail already_banned g
    else let g' =
        ban_user (record { chat_id = chat; user_id = target; banned_by = admin; created_at = now })
          g in
      (ok, g', notify_enabled chat (target ∷ []) banned_by_admin g')
