-- ===== src/GroupCall/Invariant/Machine.antt =====
-- Every command of the hub keeps its invariant.
use link_up_server.Base.{ℕ, Bool, lookup}
use link_up_server.GroupCall.Session.{Hub}
use link_up_server.GroupCall.Join
use link_up_server.GroupCall.Join.{
  request_join_call, approve_join_call, reject_join_call, mark_disconnected,
}
use link_up_server.GroupCall.Leave
use link_up_server.GroupCall.Leave.{end_call_by_user}
use link_up_server.GroupCall.Media
use link_up_server.GroupCall.Media.{
  relay_signal_targets, set_participant_muted, set_participant_video,
}
use link_up_server.GroupCall.Machine.{
  Command, create, request_join, approve_join, reject_join, end_call, relay_signal, set_muted,
  set_video, mark, cleanup, step, IsFresh, StaysFree, new_hub, Reach, here, next,
}
use link_up_server.GroupCall.Invariant.Hub.{HubIsValid, on_session-HubIsValid}
use link_up_server.GroupCall.Invariant.Create.{store_call-HubIsValid}
use link_up_server.GroupCall.Invariant.Join.{
  request_join-IsValidAfter, approve_join-IsValidAfter, reject_join-IsValidAfter, mark-IsValidAfter,
}
use link_up_server.GroupCall.Invariant.Leave.{
  end_call-IsValidAfter, relay_signal-IsValidAfter, set_muted-IsValidAfter, set_video-IsValidAfter,
}
use link_up_server.GroupCall.Invariant.Sweep.{cleanup_stale_calls-HubIsValid}

pub new_hub-HubIsValid : (a b c : Bool) → HubIsValid (new_hub a b c)
unfolding lookup
new_hub-HubIsValid a b c = record {
  keys = tt;
  sessions = λ id s e. cc;
  one_per_chat = λ i j s t e f same. cc;
}

pub step-HubIsValid :
    (now : ℕ) (c : Command) {h : Hub}
    → IsFresh c h
    → StaysFree c h
    → HubIsValid h
    → HubIsValid (step now c h)
unfolding step request_join_call approve_join_call reject_join_call mark_disconnected
    end_call_by_user relay_signal_targets set_participant_muted set_participant_video
step-HubIsValid now (create uuid r seen) fresh free v =
    store_call-HubIsValid uuid now r seen fresh free v
step-HubIsValid now (request_join user call) fresh free v =
    on_session-HubIsValid call (Join.request_join user now)
      (λ s w. request_join-IsValidAfter user now w) v
step-HubIsValid now (approve_join creator user call) {h} fresh free v =
    on_session-HubIsValid call (Join.approve_join creator user now h.has_call_store)
      (λ s w. approve_join-IsValidAfter creator user now h.has_call_store w) v
step-HubIsValid now (reject_join creator user call) fresh free v =
    on_session-HubIsValid call (Join.reject_join creator user)
      (λ s w. reject_join-IsValidAfter creator user w) v
step-HubIsValid now (end_call user call) {h} fresh free v =
    on_session-HubIsValid call (Leave.end_call user now h)
      (λ s w. end_call-IsValidAfter user now h w) v
step-HubIsValid now (relay_signal call sender target) fresh free v =
    on_session-HubIsValid call (Media.relay_signal sender target now)
      (λ s w. relay_signal-IsValidAfter sender target now w) v
step-HubIsValid now (set_muted call actor target b creator) fresh free v =
    on_session-HubIsValid call (Media.set_muted actor target b creator now)
      (λ s w. set_muted-IsValidAfter actor target b creator now w) v
step-HubIsValid now (set_video call user b) fresh free v =
    on_session-HubIsValid call (Media.set_video user b now)
      (λ s w. set_video-IsValidAfter user b now w) v
step-HubIsValid now (mark call user) fresh free v =
    on_session-HubIsValid call (Join.mark user now) (λ s w. mark-IsValidAfter user now w) v
step-HubIsValid now cleanup fresh free v = cleanup_stale_calls-HubIsValid now v

Reach-HubIsValid : {h k : Hub} → HubIsValid h → Reach h k → HubIsValid k
Reach-HubIsValid v here = v
Reach-HubIsValid v (next now c r fresh free) =
    step-HubIsValid now c fresh free (Reach-HubIsValid v r)

-- Whatever commands a new hub has run, each of its sessions is well-formed under its own id, and no
-- chat has two calls, provided that each creation brings an id not in use, and that no other creation
-- in the same chat comes between the check of a creation under its first lock and its store under the
-- second; other commands may come between.
pub Reach-new_hub-HubIsValid :
    (chat_hub messages store : Bool) {k : Hub}
    → Reach (new_hub chat_hub messages store) k
    → HubIsValid k
Reach-new_hub-HubIsValid chat_hub messages store r =
    Reach-HubIsValid (new_hub-HubIsValid chat_hub messages store) r
