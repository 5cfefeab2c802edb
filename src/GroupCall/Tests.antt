-- ===== src/GroupCall/Tests.antt =====
-- Runs of the group call operations, and the theorems about them at concrete inputs.
use link_up_server.Base.{
  ◌≡◌, ◌≤◌, ◌*◌, ◌↔◌, ◌&&◌, refl, true, false, none, some, [], ◌∷◌, arith, lookup, insert, erase,
  has, add, remove, has_key, sort_ids, ◌==◌, if◌then◌else◌,
}
use link_up_server.Text.{codes, text_eq, trim_space, to_lower}
use link_up_server.GroupCall.Session.{
  GroupCallSession, Hub, ok, store_status, ended, second, on_session, first_joined, first_connected,
}
use link_up_server.GroupCall.Create.{
  CreateRequest, normal_call_type, chat_has_session, member_set, select_participants, new_session,
  prepare_call, insert_call, create_group_call,
}
use link_up_server.GroupCall.Join
use link_up_server.GroupCall.Join.{enter, request_join_call, mark_disconnected}
use link_up_server.GroupCall.Leave
use link_up_server.GroupCall.Leave.{EndCallResult, leave, list_call_ids_by_user, calls_joined_by}
use link_up_server.GroupCall.Media
use link_up_server.GroupCall.Media.{others, mute_target, switch_muted}
use link_up_server.GroupCall.Cleanup.{
  sweep, sweep_session, tend, live_requests, drop_disconnected, is_spared, drop_user, forget,
  successor, cleanup_stale_calls,
}
use link_up_server.GroupCall.Machine.{create, request_join, step, new_hub, here, next}
use link_up_server.GroupCall.Invariant.Hub.{HubIsValid}
use link_up_server.GroupCall.Invariant.Machine.{
  new_hub-HubIsValid, step-HubIsValid, Reach-new_hub-HubIsValid,
}
use link_up_server.GroupCall.Expiry.{Reason, cleanup_stale_calls-Reason}
use link_up_server.GroupCall.Dropping.{sweep_session-spares, sweep_session-drops}
use link_up_server.GroupCall.Succession.{drop_user-successor, drop_user-orphan}
use link_up_server.GroupCall.Creation.{Accepts, create_group_call-ok_iff, create_race}
use link_up_server.GroupCall.Ending.{Ends, end_call-Ends, end_call-status}
use link_up_server.GroupCall.Signals.{relay_signal-recipients}
use link_up_server.GroupCall.Membership.{AdmitsFrom}
use link_up_server.GroupCall.Membership.Step.{step-Admits}

abbrev request : CreateRequest
request = record {
  chat_id = 100;
  caller_id = 1;
  call_type = codes " Video ";
  participant_ids = 2 ∷ 0 ∷ 3 ∷ [];
  member_ids = 1 ∷ 2 ∷ 3 ∷ 4 ∷ [];
}

abbrev empty_hub : Hub
empty_hub = new_hub true true true

-- The call just created by user 1, with users 2 and 3 invited.
abbrev calling : GroupCallSession
calling = record {
  call_id = 7;
  chat_id = 100;
  caller_id = 1;
  call_type = codes "video";
  participants = 1 ∷ 3 ∷ 2 ∷ [];
  pending_requests = [];
  joined = 1 ∷ [];
  active_participants = [];
  muted = (1, false) ∷ (3, false) ∷ (2, false) ∷ [];
  video_enabled = (1, true) ∷ (3, true) ∷ (2, true) ∷ [];
  disconnected_at = [];
  created_at = 0;
  last_activity = 0;
  expires_at = some (60 * second);
  status = codes "calling";
}

abbrev hub_with : GroupCallSession → Hub
hub_with s = record empty_hub { group_calls = (7, s) ∷ [] }

create_run : (create_group_call 7 0 request empty_hub).1 ≡ hub_with calling
unfolding create_group_call prepare_call normal_call_type text_eq trim_space to_lower
    chat_has_session member_set select_participants new_session insert_call has add insert lookup
create_run = refl

-- User 2 has joined after 5 ns.
abbrev two_in : GroupCallSession
two_in = record calling { joined = 2 ∷ 1 ∷ []; last_activity = 5; expires_at = none }

join_run : step 5 (request_join 2 7) (hub_with calling) ≡ hub_with two_in
unfolding step request_join_call on_session Join.request_join enter has add erase insert lookup
join_run = refl

two_in_found : lookup 7 (hub_with two_in).group_calls ≡ some two_in
unfolding lookup
two_in_found = refl

-- The sockets of users 1 and 2 were lost after 10 and 30 seconds.
abbrev losing : GroupCallSession
losing = record two_in { disconnected_at = (1, 10 * second) ∷ (2, 30 * second) ∷ [] }

-- Only that of user 1 was lost, and a sweep after 40 seconds has made user 2 the creator.
abbrev creator_lost : GroupCallSession
creator_lost = record two_in { disconnected_at = (1, 10 * second) ∷ [] }

abbrev succeeded : GroupCallSession
succeeded = record two_in {
  caller_id = 2;
  joined = 2 ∷ [];
  disconnected_at = [];
  muted = (3, false) ∷ (2, false) ∷ [];
  video_enabled = (3, true) ∷ (2, true) ∷ [];
}

sweep_run : sweep_session (40 * second) creator_lost ≡ some succeeded
unfolding sweep_session tend live_requests drop_disconnected is_spared drop_user forget successor
    first_joined first_connected sort_ids has remove erase lookup
sweep_run = refl

calling-HubIsValid : HubIsValid (hub_with calling)
unfolding step create_group_call prepare_call normal_call_type text_eq trim_space to_lower
    chat_has_session member_set select_participants new_session insert_call has add insert lookup
calling-HubIsValid =
    step-HubIsValid 0 (create 7 request empty_hub) refl (λ free. free)
      (new_hub-HubIsValid true true true)

two_in-HubIsValid : HubIsValid (hub_with two_in)
unfolding step request_join_call on_session Join.request_join enter has add erase insert lookup
two_in-HubIsValid = step-HubIsValid 5 (request_join 2 7) tt tt calling-HubIsValid

Reach-new_hub-HubIsValid_example :
    HubIsValid (step 5 (request_join 2 7) (step 0 (create 7 request empty_hub) empty_hub))
unfolding lookup
Reach-new_hub-HubIsValid_example =
    Reach-new_hub-HubIsValid true true true (
      next 5 (request_join 2 7) (next 0 (create 7 request empty_hub) here refl (λ free. free)) tt
        tt)

step-Admits_example : AdmitsFrom (request_join 2 7) 7 (some calling) two_in
unfolding step request_join_call on_session Join.request_join enter has add erase insert lookup
step-Admits_example =
    step-Admits 5 (request_join 2 7) 7 (hub_with calling) two_in calling-HubIsValid tt refl

cleanup_stale_calls-Reason_example : Reason (61 * second) calling
unfolding cleanup_stale_calls sweep sweep_session lookup
cleanup_stale_calls-Reason_example =
    cleanup_stale_calls-Reason (61 * second) 7 (hub_with calling) calling calling-HubIsValid tt refl
      refl

sweep_session-spares_example :
    (t : GroupCallSession) × (sweep_session (40 * second) losing ≡ some t) × (has 2 t.joined ≡ true)
unfolding lookup has
sweep_session-spares_example =
    sweep_session-spares (40 * second) 2 losing (refl, (refl, tt)) refl refl (λ t e. ground arith)

sweep_session-drops_example : has 1 succeeded.joined ≡ false
unfolding lookup
sweep_session-drops_example =
    sweep_session-drops (40 * second) 1 (10 * second) creator_lost succeeded refl (omega arith)
      sweep_run

drop_user-successor_example :
    let t = drop_user 1 creator_lost in
    (has t.caller_id t.joined ≡ true)
    × (has_key t.caller_id t.disconnected_at ≡ false)
    × (t.caller_id ≤ 2)
unfolding lookup has
drop_user-successor_example = drop_user-successor 1 2 creator_lost refl (omega arith) refl refl

drop_user-orphan_example :
    ((drop_user 1 losing).caller_id ≡ 1) × (has 1 (drop_user 1 losing).joined ≡ false)
unfolding lookup has
drop_user-orphan_example = drop_user-orphan 1 losing refl (λ x h n. ground arith)

create_group_call-ok_iff_example :
    ((s : GroupCallSession) × ((create_group_call 7 0 request empty_hub).0 ≡ ok s))
    ↔ Accepts request empty_hub
create_group_call-ok_iff_example = create_group_call-ok_iff 7 0 request empty_hub

create_race_example :
    let other = record calling { call_id = 8 } in
    let after = insert_call other (insert_call calling empty_hub) in
    (lookup 7 after.group_calls ≡ some calling)
    × (lookup 8 after.group_calls ≡ some other)
    × (calling.chat_id ≡ request.chat_id)
    × (other.chat_id ≡ request.chat_id)
unfolding prepare_call normal_call_type text_eq trim_space to_lower chat_has_session member_set
    select_participants new_session has add
create_race_example = create_race 7 8 0 0 request request empty_hub (omega arith) refl refl refl

end_call-Ends_example :
    (r : EndCallResult) × ((Leave.end_call 2 9 (hub_with two_in) two_in).result ≡ ok r)
    × Ends 2 two_in r (Leave.end_call 2 9 (hub_with two_in) two_in).session
unfolding has
end_call-Ends_example = end_call-Ends 2 9 (hub_with two_in) two_in refl

end_call-status_example :
    (Leave.end_call 1 9 (hub_with two_in) two_in).effects ≡ store_status 7 ended 9 ∷ []
unfolding Leave.end_call has
end_call-status_example = end_call-status 1 9 (hub_with two_in) two_in refl refl refl

relay_signal-recipients_example :
    (has 1 two_in.joined ≡ true)
    × (has 1 two_in.participants ≡ true)
    × (has 2 (2 ∷ []) ≡ (
        if 2 == 1
        then false
        else if 0 == 0
        then has 2 two_in.joined
        else (2 == 0 && has 2 two_in.joined)))
unfolding Media.relay_signal others sort_ids has add
relay_signal-recipients_example =
    relay_signal-recipients 1 0 9 2 two_in {chat = 100} {to = 2 ∷ []} refl
