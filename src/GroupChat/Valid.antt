-- ===== src/GroupChat/Valid.antt =====
-- services/group_chat.service.go: the tables of group chats that operations reach.
use link_up_server.Base.{
  ℕ, ◌≡◌, inl, inr, refl, ◌∙◌, subst, Bool, ◌||◌, Option, none, some, arith, ◌==◌, lookup,
  lookup-insert, is_some, Bool-cases, Option-cases,
}
use link_up_server.GroupChat.Tables.{Chat, Groups, is_user_member, is_user_admin}
use link_up_server.GroupChat.Service.{Result, ok, err}
use link_up_server.GroupChat.Roles.{
  SettingsInput, update_settings, after_checks, check_settings, write_settings, set_notified,
  set_or,
}
use link_up_server.GroupChat.Machine.{
  Command, create, leave, ban, invite, approve, reject, pass_admin, pass_ownership, mute, unmute,
  update, check_mute, step,
}
use link_up_server.GroupChat.Changes.{Change, unchanged, NoCreator}
use link_up_server.GroupChat.Changes.Members.{
  create-Change, leave-Change, ban-Change, approve-Change, pass_admin-Change,
}
use link_up_server.GroupChat.Changes.Rest.{
  transfer_ownership-refused, mute-Change, unmute-Change, check_mute-Change, invite-Change,
  reject-Change,
}

-- The settings change no participant, no ban and no creator.
record Settled (g g' : Groups) : Type 0 where
  participants : g'.participants ≡ g.participants
  bans : g'.bans ≡ g.bans
  creators : NoCreator g → NoCreator g'

module _ (g : Groups) (chat user : ℕ) (input : SettingsInput) where
  set_notified-Settled : (on : Option Bool) → Settled g (set_notified chat user on g)
  set_notified-Settled none = record { participants = refl; bans = refl; creators = λ h. h }
  set_notified-Settled (some b) = record { participants = refl; bans = refl; creators = λ h. h }

  write_settings-Settled : Settled g (write_settings chat user input g).1
  unfolding write_settings
  write_settings-Settled = elim (Bool-cases (is_some input.new_name || is_some input.new_avatar)) [
    | inr neither ↦
        rw (neither, write_settings)
          (record { participants = refl; bans = refl; creators = λ h. h })
    | inl given ↦ elim (Option-cases (lookup chat g.chats)) [
      | inl missing ↦
          rw (given, missing, write_settings)
            (record { participants = refl; bans = refl; creators = λ h. h })
      | inr (c, found) ↦
          let c' : Chat = record c {
            name = set_or c.name input.new_name;
            avatar_uri = set_or c.avatar_uri input.new_avatar;
          } in
          rw (given, found, write_settings)
            (record {
              participants = refl;
              bans = refl;
              creators = λ h i k at. elim (Bool-cases (i == chat)) [
                | inl here ↦
                    let same : c' ≡ k = ground (arith, lookup-insert i chat c' g.chats) in
                    subst (λ x. x.creator_id ≡ none) same (h chat c found)
                | inr other ↦ h i k (ground (arith, lookup-insert i chat c' g.chats))
              ];
            })
    ]
  ]

Settled-trans : (a b c : Groups) → Settled a b → Settled b c → Settled a c
Settled-trans a b c h k = record {
  participants = k.participants ∙ h.participants;
  bans = k.bans ∙ h.bans;
  creators = λ n. k.creators (h.creators n);
}

after_checks-Settled :
    (r : Result) (chat user : ℕ) (input : SettingsInput) (g : Groups)
    → Settled g (after_checks r chat user input g).1
unfolding after_checks
after_checks-Settled (err e) chat user input g = record {
  participants = refl;
  bans = refl;
  creators = λ h. h;
}
after_checks-Settled ok chat user input g =
    elim (Bool-cases
      (is_some input.member_add || is_some input.new_name || is_some input.new_avatar)) [
        | inl given ↦ rw (given, after_checks) (write_settings-Settled g chat user input)
        | inr nothing ↦
            rw (nothing, after_checks)
              (record { participants = refl; bans = refl; creators = λ h. h })
      ]

update_settings-Settled :
    (g : Groups) (chat user : ℕ) (input : SettingsInput)
    → Settled g (update_settings chat user input g).1
unfolding update_settings
update_settings-Settled g chat user input = elim (Bool-cases (is_user_member chat user g)) [
  | inr outside ↦
      rw (outside, update_settings) (record { participants = refl; bans = refl; creators = λ h. h })
  | inl member ↦
      rw (member, update_settings)
        (Settled-trans g _ _ (set_notified-Settled g chat user input input.notifications) (
          after_checks-Settled (check_settings (is_user_admin chat user g) input) chat user input
            (set_notified chat user input.notifications g)))
]

pub step-Change : (c : Command) (g : Groups) → NoCreator g → Change c g (step c g)
unfolding step
step-Change (create uuid now fails user name avatar ids) g n =
    create-Change g uuid now fails user name avatar ids
step-Change (leave chat user mode history) g n = leave-Change g chat user mode history
step-Change (ban now chat admin target) g n = ban-Change g now chat admin target
step-Change (invite uuid now chat requester target) g n =
    invite-Change g uuid now chat requester target
step-Change (approve now chat target id) g n = approve-Change g now chat target id
step-Change (reject now chat target id) g n = reject-Change g now chat target id
step-Change (pass_admin add_month now chat requester target) g n =
    pass_admin-Change g add_month now chat requester target
step-Change (pass_ownership now chat requester target keep) g n =
    rw (transfer_ownership-refused g now chat requester target keep n)
      (unchanged g refl refl (λ h. h))
step-Change (mute uuid now chat admin target reason minutes) g n =
    mute-Change g uuid now chat admin target reason minutes
step-Change (unmute chat admin target) g n = unmute-Change g chat admin target
step-Change (update chat user input) g n =
    let s = update_settings-Settled g chat user input in
    unchanged _ s.participants s.bans s.creators
step-Change (check_mute now chat user) g n = check_mute-Change g now chat user
