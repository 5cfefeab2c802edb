-- ===== src/GroupChat/Tests.antt =====
-- The theorems on group chats at concrete tables.
use link_up_server.Base.{
  ◌≡◌, refl, true, false, none, some, [], ◌∷◌, arith, lookup, insert, any_row,
}
use link_up_server.Text.{Text, codes, text_eq, trim_space, trim_left, is_space, to_lower, lower}
use link_up_server.GroupChat.Tables.{
  GroupChatMute, Groups, chat_admin, chat_member, pending, silences, is_user_member, is_user_admin,
  is_user_banned, get_user_mute, get_settings, accept_request, insert_group, insert_participant,
  insert_participants,
}
use link_up_server.GroupChat.Service.{
  create_group, byte_length, other_members, new_members, leave_group, leave_as,
}
use link_up_server.GroupChat.Requests.{
  add_member_request, approve_member_request, approve_request, store_approval,
}
use link_up_server.GroupChat.Machine.{create, approve, invite, step, no_groups, Reach, start, next}
use link_up_server.GroupChat.Changes.{NoCreator}
use link_up_server.GroupChat.Members.{BannedOut, Joins, Reach-BannedOut, step-Joins}
use link_up_server.GroupChat.Leaders.{has_admin, now_on, then_on, last_admin-Later}
use link_up_server.GroupChat.Mutes.{get_user_mute-forgets}

abbrev name : Text
name = codes "Team"

-- User 1 makes the group 7 with user 2.
abbrev group : Groups
group = record no_groups {
  chats = (7, record { is_group = true; creator_id = none; name = name; avatar_uri = [] }) ∷ [];
  participants =
      record { chat_id = 7; user_id = 1; role = chat_admin; joined_at = 10 }
      ∷ record { chat_id = 7; user_id = 2; role = chat_member; joined_at = 10 }
      ∷ [];
}

made : Reach no_groups group
unfolding step create_group byte_length other_members new_members insert_group insert_participants
    insert_participant lookup insert any_row is_user_member is_user_banned
made = next (create 7 10 false 1 name [] (2 ∷ [])) no_groups (λ member. (refl, refl)) start

Reach-BannedOut_example : BannedOut group × NoCreator group
Reach-BannedOut_example = Reach-BannedOut group made

-- User 2 invites user 3.
abbrev invited : Groups
invited = record group {
  requests =
      (
        9,
        record {
          chat_id = 7;
          requester_id = 2;
          target_user_id = 3;
          status = pending;
          created_at = 11;
          responded_at = none;
        },
      )
      ∷ [];
}

asked : Reach no_groups invited
unfolding step add_member_request is_user_member is_user_admin is_user_banned any_row get_settings
    lookup insert
asked = next (invite 9 11 7 2 3) group tt made

step-Joins_example : Joins 7 3 invited (approve 12 7 3 9)
unfolding step is_user_member any_row lookup approve_member_request approve_request store_approval
    is_user_banned accept_request insert_participant
step-Joins_example = step-Joins (approve 12 7 3 9) invited 7 3 asked refl refl

-- The only administrator leaves in silence, and then user 3 accepts the invitation.
last_admin-Later_example :
    has_admin 7 (step (approve 12 7 3 9) (leave_group 7 1 (codes "silent") [] invited).1) ≡ false
unfolding leave_group leave_as is_user_member any_row text_eq trim_space trim_left is_space to_lower
    lower
last_admin-Later_example =
    last_admin-Later 7 1 (codes "silent") [] invited _ (Reach-BannedOut invited asked).1 refl refl
      (then_on (approve 12 7 3 9) _ tt now_on)

-- User 2 is muted for a minute at time 10, and for good at time 20.
abbrev short_mute : GroupChatMute
short_mute = record {
  chat_id = 7;
  user_id = 2;
  muted_by = 1;
  reason = codes "spam";
  expires_at = some 70;
  created_at = 10;
}

abbrev muted_group : Groups
muted_group = record group {
  mutes = (4, short_mute) ∷ (5, record short_mute { expires_at = none; created_at = 20 }) ∷ [];
}

get_user_mute-forgets_example :
    ((get_user_mute 80 7 2 muted_group).0 ≡ none)
    × (any_row (λ e. silences 7 2 e.1) (get_user_mute 80 7 2 muted_group).1.mutes ≡ false)
unfolding lookup
get_user_mute-forgets_example =
    get_user_mute-forgets 80 7 2 4 short_mute muted_group (refl, (refl, tt)) refl refl refl
      (λ j m at mine. ground arith)
