-- ===== src/GroupChat/Roles.antt =====
-- services/group_chat.service.go with validations/group_chat.validation.go: the transfers of
-- administration and ownership, mutes, and settings. The time a month after another is a parameter.
use link_up_server.Base.{
  ℕ, ◌+◌, ◌*◌, Bool, false, not, ◌&&◌, ◌||◌, Option, none, some, List, [], ◌∷◌, ◌++◌, if◌then◌else◌,
  ltb, ◌==◌, length, lookup, insert, is_some,
}
use link_up_server.Text.{Text, codes, text_eq}
use link_up_server.GroupChat.Tables.{
  Chat, Groups, GroupChatSettings, is_user_member, is_user_admin, get_settings, move_admin,
  move_ownership, delete_mutes,
}
use link_up_server.GroupChat.Service.{
  Outcome, Effect, Result, fail, ok, err, transfer_to_self, admin_only, target_not_member,
  admin_cooldown, chat_not_found, only_creator_transfer, not_group_transfer, self_mute,
  not_member_mute, invalid_mute_reason, invalid_mute_duration, not_member, admin_only_name,
  invalid_group_name, admin_only_avatar, admin_only_config, notify_enabled, system_message,
  became_admin, became_owner, muted, unmuted, name_changed, avatar_changed,
}

-- `time.Now().UTC().Before(nextAllowed)`
abbrev pub in_cooldown : (ℕ → ℕ) → ℕ → GroupChatSettings → Bool
in_cooldown add_month now s = elim s.last_admin_transfer_at [
  | none ↦ false
  | some t ↦ ltb now (add_month t)
]

-- TransferAdmin
unfoldable pub transfer_admin : (ℕ → ℕ) → ℕ → ℕ → ℕ → ℕ → Groups → Outcome
transfer_admin add_month now chat requester target g =
    if requester == target
    then fail transfer_to_self g
    else if not (is_user_admin chat requester g)
    then fail admin_only g
    else if not (is_user_member chat target g)
    then fail target_not_member g
    else if in_cooldown add_month now (get_settings chat g)
    then fail admin_cooldown g
    else let g' = move_admin chat requester target now g in
      (
        ok,
        g',
        system_message chat became_admin target []
            ∷ notify_enabled chat (target ∷ []) became_admin g',
      )

-- `chat.CreatorID == nil || *chat.CreatorID != requesterID`, negated
abbrev pub created_by : ℕ → Chat → Bool
created_by user c = elim c.creator_id [ none ↦ false | some creator ↦ creator == user ]

-- TransferOwnership
unfoldable pub transfer_ownership : ℕ → ℕ → ℕ → ℕ → Bool → Groups → Outcome
transfer_ownership now chat requester target keep_admin g =
    if requester == target then fail transfer_to_self g else elim (lookup chat g.chats) [
      | none ↦ fail chat_not_found g
      | some c ↦
          if not (created_by requester c)
          then fail only_creator_transfer g
          else if not c.is_group
          then fail not_group_transfer g
          else if not (is_user_member chat target g)
          then fail target_not_member g
          else let g' = move_ownership chat requester target keep_admin now g in
            (ok, g', notify_enabled chat (target ∷ []) became_owner g')
    ]

-- AllowedMuteReasons
unfoldable pub is_mute_reason : Text → Bool
is_mute_reason r =
    text_eq r (codes "spam")
    || text_eq r (codes "abuse")
    || text_eq r (codes "harassment")
    || text_eq r (codes "violation")
    || text_eq r (codes "other")

-- AllowedMuteDurations
abbrev pub is_mute_duration : ℕ → Bool
is_mute_duration d = d == 1 || d == 30 || d == 60 || d == 1440 || d == 0

-- MuteMember; times are numbers of seconds.
unfoldable pub mute_member : ℕ → ℕ → ℕ → ℕ → ℕ → Text → ℕ → Groups → Outcome
mute_member uuid now chat admin target reason minutes g =
    if admin == target
    then fail self_mute g
    else if not (is_user_admin chat admin g)
    then fail admin_only g
    else if not (is_user_member chat target g)
    then fail not_member_mute g
    else if not (is_mute_reason reason)
    then fail invalid_mute_reason g
    else if not (is_mute_duration minutes)
    then fail invalid_mute_duration g
    else let g' = record g {
      mutes =
          insert uuid
            (record {
              chat_id = chat;
              user_id = target;
              muted_by = admin;
              reason = reason;
              expires_at = if ltb 0 minutes then some (now + minutes * 60) else none;
              created_at = now;
            })
            g.mutes;
    } in
      (ok, g', notify_enabled chat (target ∷ []) muted g')

-- UnmuteMember
unfoldable pub unmute_member : ℕ → ℕ → ℕ → Groups → Outcome
unmute_member chat admin target g =
    if not (is_user_admin chat admin g)
    then fail admin_only g
    else let g' = delete_mutes chat target g in
      (ok, g', notify_enabled chat (target ∷ []) unmuted g')

-- dto.GroupChatSettingsDTO; `none` is a field that is not given.
pub record SettingsInput : Type 0 where
  pub notifications : Option Bool
  pub new_name : Option Text
  pub new_avatar : Option Text
  pub member_add : Option Bool

-- UpsertMemberSettings: the row of the pair is at the front.
abbrev pub set_notified : ℕ → ℕ → Option Bool → Groups → Groups
set_notified chat user none g = g
set_notified chat user (some on) g = record g {
  member_settings =
      record { chat_id = chat; user_id = user; notifications_enabled = on } ∷ g.member_settings;
}

abbrev pub is_bad_name : Option Text → Bool
is_bad_name none = false
is_bad_name (some name) = ltb (length name) 3 || ltb 50 (length name)

-- The checks of the other fields.
unfoldable pub check_settings : Bool → SettingsInput → Result
check_settings is_admin input =
    if is_some input.new_name && not is_admin
    then err admin_only_name
    else if is_bad_name input.new_name
    then err invalid_group_name
    else if is_some input.new_avatar && not is_admin
    then err admin_only_avatar
    else if is_some input.member_add && not is_admin
    then err admin_only_config
    else ok

abbrev pub set_or {ℓ} : {A : Type ℓ} → A → Option A → A
set_or old none = old
set_or old (some new) = new

abbrev pub setting_effects : ℕ → ℕ → SettingsInput → List Effect
setting_effects chat user input =
    elim input.new_name [ none ↦ [] | some name ↦ system_message chat name_changed user name ∷ [] ]
    ++ (if is_some input.new_avatar then system_message chat avatar_changed user [] ∷ [] else [])

-- The writes for a name, a picture and the permission to add members.
unfoldable pub write_settings : ℕ → ℕ → SettingsInput → Groups → Outcome
write_settings chat user input g =
    let s = get_settings chat g in
    let g' = record g {
      settings =
          insert chat (record s { allow_member_add = set_or s.allow_member_add input.member_add })
            g.settings;
    } in
    if is_some input.new_name || is_some input.new_avatar
    then elim (lookup chat g.chats) [
      | none ↦ (err chat_not_found, g', [])
      | some c ↦ (
        ok,
        record g' {
          chats =
              insert chat
                (record c {
                  name = set_or c.name input.new_name;
                  avatar_uri = set_or c.avatar_uri input.new_avatar;
                })
                g.chats;
        },
        setting_effects chat user input,
      )
    ]
    else (ok, g', [])

-- The writes after the checks.
unfoldable pub after_checks : Result → ℕ → ℕ → SettingsInput → Groups → Outcome
after_checks (err e) chat user input g = (err e, g, [])
after_checks ok chat user input g =
    if is_some input.member_add || is_some input.new_name || is_some input.new_avatar
    then write_settings chat user input g
    else (ok, g, [])

-- UpdateSettings, without its answer, which GetSettings reads.
unfoldable pub update_settings : ℕ → ℕ → SettingsInput → Groups → Outcome
update_settings chat user input g =
    if not (is_user_member chat user g)
    then fail not_member g
    else after_checks (check_settings (is_user_admin chat user g) input) chat user input
        (set_notified chat user input.notifications g)
