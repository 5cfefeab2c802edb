-- ===== src/GroupChat/Machine.antt =====
-- services/group_chat.service.go: the operations as commands, and the tables that they reach. A
-- command is a whole request, whose statements are separate in the source; requests run one after the
-- other. `Races` has a ban between the statements of an approval.
use link_up_server.Base.{ℕ, ◌≡◌, Bool, false, [], List}
use link_up_server.Text.{Text}
use link_up_server.GroupChat.Tables.{Groups, get_user_mute, is_user_member, is_user_banned}
use link_up_server.GroupChat.Service.{create_group, leave_group, ban_member}
use link_up_server.GroupChat.Requests.{
  add_member_request, approve_member_request, reject_member_request,
}
use link_up_server.GroupChat.Roles.{
  SettingsInput, transfer_admin, transfer_ownership, mute_member, unmute_member, update_settings,
}

pub data Command : Type 0 where
  create : ℕ → ℕ → Bool → ℕ → Text → Text → List ℕ → Command
  leave : ℕ → ℕ → Text → Text → Command
  ban : ℕ → ℕ → ℕ → ℕ → Command
  invite : ℕ → ℕ → ℕ → ℕ → ℕ → Command
  approve : ℕ → ℕ → ℕ → ℕ → Command
  reject : ℕ → ℕ → ℕ → ℕ → Command
  pass_admin : (ℕ → ℕ) → ℕ → ℕ → ℕ → ℕ → Command
  pass_ownership : ℕ → ℕ → ℕ → ℕ → Bool → Command
  mute : ℕ → ℕ → ℕ → ℕ → ℕ → Text → ℕ → Command
  unmute : ℕ → ℕ → ℕ → Command
  update : ℕ → ℕ → SettingsInput → Command
  check_mute : ℕ → ℕ → ℕ → Command

unfoldable pub step : Command → Groups → Groups
step (create uuid now key_fails user name avatar ids) g =
    (create_group uuid now key_fails user name avatar ids g).1
step (leave chat user mode history) g = (leave_group chat user mode history g).1
step (ban now chat admin target) g = (ban_member now chat admin target g).1
step (invite uuid now chat requester target) g =
    (add_member_request uuid now chat requester target g).1
step (approve now chat target id) g = (approve_member_request now chat target id g).1
step (reject now chat target id) g = (reject_member_request now chat target id g).1
step (pass_admin add_month now chat requester target) g =
    (transfer_admin add_month now chat requester target g).1
step (pass_ownership now chat requester target keep) g =
    (transfer_ownership now chat requester target keep g).1
step (mute uuid now chat admin target reason minutes) g =
    (mute_member uuid now chat admin target reason minutes g).1
step (unmute chat admin target) g = (unmute_member chat admin target g).1
step (update chat user input) g = (update_settings chat user input g).1
step (check_mute now chat user) g = (get_user_mute now chat user g).1

abbrev pub no_groups : Groups
no_groups = record {
  chats = [];
  participants = [];
  bans = [];
  requests = [];
  settings = [];
  member_settings = [];
  mutes = [];
}

-- The id of a new group is one that no participant and no ban names.
abbrev pub IsFresh : Command → Groups → Type 0
IsFresh (create uuid now key_fails user name avatar ids) g =
    (member : ℕ) → (is_user_member uuid member g ≡ false) × (is_user_banned uuid member g ≡ false)
IsFresh c g = Unit

-- The tables that commands reach from some tables.
pub data Reach (g : Groups) : Groups → Type 0 where
  start : Reach g g
  next : (c : Command) (g' : Groups) → IsFresh c g' → Reach g g' → Reach g (step c g')
