-- ===== src/GroupCall/Media.antt =====
-- groupws/hub.go: RelaySignalTargets, SetParticipantMuted, SetParticipantVideo and
-- GetParticipantsSnapshot.
use link_up_server.Base.{
  ℕ, ◌==◌, Bool, true, false, not, none, some, List, [], ◌∷◌, if◌then◌else◌, Dict, lookup, insert,
  has, add, sort_ids,
}
use link_up_server.GroupCall.Session.{
  GroupCallSession, Hub, Result, Reply, ok, err, call_not_found, not_participant, not_joined,
  signal_to_self, receiver_not_in_call, only_creator_mutes, missing_target, creator_uses_toggle_mic,
  target_not_participant, Effect, participant_ids, joined_ids, active_participant_ids,
  is_participant, is_joined, update_activity, refuse, reply, on_session,
}

-- The loop that collects the other joined users.
unfoldable pub others : ℕ → List ℕ → List ℕ
others user [] = []
others user (u ∷ us) = let rest = others user us in if u == user then rest else u ∷ rest

-- The sender is marked active before the target is looked at, also when that is then refused.
unfoldable pub relay_signal : ℕ → ℕ → ℕ → GroupCallSession → Reply (ℕ × List ℕ)
relay_signal sender target now s =
    if not (is_participant sender s)
    then refuse not_participant s
    else if not (is_joined sender s)
    then refuse not_joined s
    else let s' =
        update_activity now (record s { active_participants = add sender s.active_participants }) in
      if target == 0
      then reply (s.chat_id, sort_ids (others sender s.joined)) s'
      else if target == sender
      then refuse signal_to_self s'
      else if has target s.joined
      then reply (s.chat_id, target ∷ []) s'
      else refuse receiver_not_in_call s'

unfoldable pub relay_signal_targets : ℕ → ℕ → ℕ → ℕ → Hub → Result (ℕ × List ℕ) × Hub × List Effect
relay_signal_targets call sender target now = on_session call (relay_signal sender target now)

abbrev pub same : Bool → Bool → Bool
same true b = b
same false b = not b

-- `current, ok := m[user]; ok && current == b`
abbrev pub is_set_to : ℕ → Bool → Dict Bool → Bool
is_set_to user b m = elim (lookup user m) [ none ↦ false | some c ↦ same c b ]

-- Whose microphone `SetParticipantMuted` switches, or why none.
unfoldable pub mute_target : ℕ → ℕ → Bool → GroupCallSession → Result ℕ
mute_target actor target require_creator s =
    if not (is_participant actor s)
    then err not_participant
    else if not require_creator
    then ok actor
    else if not (s.caller_id == actor)
    then err only_creator_mutes
    else if target == 0
    then err missing_target
    else if target == actor
    then err creator_uses_toggle_mic
    else if not (is_participant target s)
    then err target_not_participant
    else ok target

-- The end of `SetParticipantMuted`, once its target is settled.
unfoldable pub switch_muted : Bool → ℕ → GroupCallSession → Result ℕ → Reply (Bool × List ℕ)
switch_muted muted now s (err e) = refuse e s
switch_muted muted now s (ok user) =
    if is_set_to user muted s.muted
    then reply (false, []) s
    else reply (true, joined_ids s)
        (update_activity now (record s { muted = insert user muted s.muted }))

unfoldable pub set_muted : ℕ → ℕ → Bool → Bool → ℕ → GroupCallSession → Reply (Bool × List ℕ)
unfolding switch_muted
set_muted actor target muted require_creator now s =
    switch_muted muted now s (mute_target actor target require_creator s)

unfoldable pub set_participant_muted :
    ℕ → ℕ → ℕ → Bool → Bool → ℕ → Hub → Result (Bool × List ℕ) × Hub × List Effect
set_participant_muted call actor target muted require_creator now =
    on_session call (set_muted actor target muted require_creator now)

unfoldable pub set_video : ℕ → Bool → ℕ → GroupCallSession → Reply (Bool × List ℕ)
set_video user enabled now s =
    if not (is_participant user s)
    then refuse not_participant s
    else if is_set_to user enabled s.video_enabled
    then reply (false, []) s
    else reply (true, joined_ids s)
        (update_activity now (record s { video_enabled = insert user enabled s.video_enabled }))

unfoldable pub set_participant_video :
    ℕ → ℕ → Bool → ℕ → Hub → Result (Bool × List ℕ) × Hub × List Effect
set_participant_video call user enabled now = on_session call (set_video user enabled now)

-- dto.GroupCallParticipantsResponse
pub record GroupCallParticipants : Type 0 where
  pub call_id : ℕ
  pub participants : List ℕ
  pub joined : List ℕ
  pub active_participants : List ℕ

unfoldable pub get_participants_snapshot : ℕ → ℕ → Hub → Result GroupCallParticipants
get_participants_snapshot call user h = elim (lookup call h.group_calls) [
  | none ↦ err call_not_found
  | some s ↦
      if not (is_participant user s)
      then err not_participant
      else ok (record {
        call_id = call;
        participants = participant_ids s;
        joined = joined_ids s;
        active_participants = active_participant_ids s;
      })
]
