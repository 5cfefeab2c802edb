-- ===== src/GroupCall/Membership/Step.antt =====
-- Who can enter a call, for every command of the hub.
use link_up_server.Base.{
  subst, ℕ, ◌≡◌, refl, sym, ap, ◌∙◌, none, some, arith, lookup, Distinct, true, has, ◌==◌, inl, inr,
  Bool-cases, Option-cases,
}
use link_up_server.GroupCall.Session.{GroupCallSession, Hub, Reply, on_session, ok}
use link_up_server.GroupCall.Create.{
  CreateRequest, new_session, prepare_call, store_call, create_group_call,
}
use link_up_server.GroupCall.Creation.{
  create_group_call-prepare, prepare_call-Accepts, create_group_call-participants,
}
use link_up_server.GroupCall.Join
use link_up_server.GroupCall.Join.{
  enter, welcome, admit, request_join_call, approve_join_call, reject_join_call, mark_disconnected,
}
use link_up_server.GroupCall.Leave
use link_up_server.GroupCall.Leave.{leave, end_call_by_user}
use link_up_server.GroupCall.Media
use link_up_server.GroupCall.Media.{
  relay_signal_targets, mute_target, is_set_to, switch_muted, set_participant_muted,
  set_participant_video,
}
use link_up_server.GroupCall.Machine.{
  Command, create, request_join, approve_join, reject_join, end_call, relay_signal, set_muted,
  set_video, mark, cleanup, step, IsFresh,
}
use link_up_server.GroupCall.Cleanup.{cleanup_stale_calls}
use link_up_server.GroupCall.Invariant.Sweep.{lookup-sweep}
use link_up_server.GroupCall.Invariant.Create.{
  store_call-others, store_call-new, prepare_call-Prepared,
}
use link_up_server.GroupCall.Invariant.Hub.{HubIsValid}
use link_up_server.GroupCall.Membership.{
  Admits, AdmitsFrom, Founds, AdmitsAfter, KeepsAfter, keeps_admits, reject_join-KeepsAfter,
  mark-KeepsAfter, relay_signal-KeepsAfter, set_muted-KeepsAfter, set_video-KeepsAfter,
  request_join-AdmitsAfter, approve_join-AdmitsAfter, end_call-AdmitsAfter, sweep-Admits, of_Came,
}
use link_up_server.GroupCall.Trace.{Came, untouched, touched, on_session-Came, on_session-absent}

-- The operation on one session that a command stands for lets in nobody but by `Lets`.
on_session-Admits :
    {A : Type 0} (c : Command) (call i : ℕ) (f : GroupCallSession → Reply A) (h : Hub)
    (s t : GroupCallSession)
    → (call ≡ i → AdmitsAfter c i s (f s).session)
    → lookup i h.group_calls ≡ some s
    → lookup i (on_session call f h).1.group_calls ≡ some t
    → Admits c i s t
on_session-Admits c call i f h s t after found found' =
    go (on_session-Came call i f h s found found')
  where
    go : Came call (f s).session i s t → Admits c i s t
    go (untouched e) = of_Came c call i none s t tt (untouched e)
    go (touched here e) = of_Came c call i (f s).session s t (after (sym here)) (touched here e)

create-Admits :
    (c : Command) (uuid now i : ℕ) (r : CreateRequest) (seen h : Hub) (s t : GroupCallSession)
    → lookup uuid h.group_calls ≡ none
    → lookup i h.group_calls ≡ some s
    → lookup i (store_call (prepare_call uuid now r seen) h).group_calls ≡ some t
    → Admits c i s t
create-Admits c uuid now i r seen h s t fresh found found' =
    subst (Admits c i s) same (keeps_admits c i s (some s) (refl, refl))
  where
    same : s ≡ t
    same = ground (arith, store_call-others uuid now i r seen h s fresh found)

prepared-joined :
    (uuid now : ℕ) (r : CreateRequest) (seen : Hub) (t : GroupCallSession)
    → prepare_call uuid now r seen ≡ ok t
    → (x : ℕ) → has x t.joined ≡ true
    → x ≡ r.caller_id
unfolding new_session has
prepared-joined uuid now r seen t good x h =
    let p = prepare_call-Prepared uuid now r seen good in
    let in_new = rw p.is_new at h in ground (arith, in_new)

create-Founds :
    (uuid now i : ℕ) (r : CreateRequest) (seen h : Hub) (t : GroupCallSession)
    → lookup i h.group_calls ≡ none
    → lookup i (store_call (prepare_call uuid now r seen) h).group_calls ≡ some t
    → Founds (create uuid r seen) i t
create-Founds uuid now i r seen h t absent there =
    let (here, good) = store_call-new uuid now i r seen h t absent there in
    let made : (create_group_call uuid now r seen).0 ≡ ok t =
      create_group_call-prepare uuid now r seen ∙ good in
    let accepts = prepare_call-Accepts uuid now r seen good in
    record {
      request = r;
      seen = seen;
      is_create = ap (λ k. create k r seen) (sym here);
      joined = prepared-joined uuid now r seen t good;
      participants = λ x k.
          let named = create_group_call-participants uuid now r seen x made in
          elim (Bool-cases (x == r.caller_id)) [
            | inl caller ↦ inl (ground arith)
            | inr other ↦ inr (ground (arith, named, accepts.are_members x))
          ];
    }

kept :
    {A : Type 0} (c : Command) (call i : ℕ) (f : GroupCallSession → Reply A) (h : Hub)
    (s t : GroupCallSession)
    → KeepsAfter s (f s).session
    → lookup i h.group_calls ≡ some s
    → lookup i (on_session call f h).1.group_calls ≡ some t
    → Admits c i s t
kept c call i f h s t keeps =
    on_session-Admits c call i f h s t (λ _. keeps_admits c i s (f s).session keeps)

cleanup-Admits :
    (c : Command) (now i : ℕ) (h : Hub) (s t : GroupCallSession)
    → Distinct h.group_calls
    → lookup i h.group_calls ≡ some s
    → lookup i (cleanup_stale_calls now h).0.group_calls ≡ some t
    → Admits c i s t
unfolding cleanup_stale_calls
cleanup-Admits c now i h s t k found found' =
    sweep-Admits c i now s (ground (arith, lookup-sweep now i h.group_calls k))

-- A call that was there.
there-Admits :
    (now : ℕ) (c : Command) (i : ℕ) (h : Hub) (s t : GroupCallSession)
    → HubIsValid h
    → IsFresh c h
    → lookup i h.group_calls ≡ some s
    → lookup i (step now c h).group_calls ≡ some t
    → Admits c i s t
unfolding step request_join_call approve_join_call reject_join_call mark_disconnected
    end_call_by_user relay_signal_targets set_participant_muted set_participant_video
there-Admits now (create uuid r seen) i h s t v fresh =
    create-Admits _ uuid now i r seen h s t fresh
there-Admits now (request_join user call) i h s t v fresh =
    on_session-Admits (request_join user call) call i (Join.request_join user now) h s t
      (λ e. rw e (request_join-AdmitsAfter user now i s))
there-Admits now (approve_join creator user call) i h s t v fresh =
    on_session-Admits (approve_join creator user call) call i
      (Join.approve_join creator user now h.has_call_store) h s t
      (λ e. rw e (approve_join-AdmitsAfter creator user now i h.has_call_store s))
there-Admits now (reject_join creator user call) i h s t v fresh =
    kept _ call i (Join.reject_join creator user) h s t (reject_join-KeepsAfter creator user s)
there-Admits now (end_call user call) i h s t v fresh =
    on_session-Admits (end_call user call) call i (Leave.end_call user now h) h s t
      (λ e. end_call-AdmitsAfter _ user now i h s)
there-Admits now (relay_signal call sender target) i h s t v fresh =
    kept _ call i (Media.relay_signal sender target now) h s t
      (relay_signal-KeepsAfter sender target now s)
there-Admits now (set_muted call actor target b creator) i h s t v fresh =
    kept _ call i (Media.set_muted actor target b creator now) h s t
      (set_muted-KeepsAfter actor target b creator now s)
there-Admits now (set_video call user b) i h s t v fresh =
    kept _ call i (Media.set_video user b now) h s t (set_video-KeepsAfter user b now s)
there-Admits now (mark call user) i h s t v fresh =
    kept _ call i (Join.mark user now) h s t (mark-KeepsAfter user now s)
there-Admits now cleanup i h s t v fresh = cleanup-Admits _ now i h s t v.keys

-- A call that was not there.
absent-Founds :
    (now : ℕ) (c : Command) (i : ℕ) (h : Hub) (t : GroupCallSession)
    → HubIsValid h
    → lookup i h.group_calls ≡ none
    → lookup i (step now c h).group_calls ≡ some t
    → Founds c i t
unfolding step request_join_call approve_join_call reject_join_call mark_disconnected
    end_call_by_user relay_signal_targets set_participant_muted set_participant_video
    cleanup_stale_calls
absent-Founds now (create uuid r seen) i h t v absent there =
    create-Founds uuid now i r seen h t absent there
absent-Founds now (request_join user call) i h t v absent there =
    absurd (ground (arith, on_session-absent call i (Join.request_join user now) h absent))
absent-Founds now (approve_join creator user call) i h t v absent there = absurd (
    ground (
      arith,
      on_session-absent call i (Join.approve_join creator user now h.has_call_store) h absent,
    ))
absent-Founds now (reject_join creator user call) i h t v absent there =
    absurd (ground (arith, on_session-absent call i (Join.reject_join creator user) h absent))
absent-Founds now (end_call user call) i h t v absent there =
    absurd (ground (arith, on_session-absent call i (Leave.end_call user now h) h absent))
absent-Founds now (relay_signal call sender target) i h t v absent there =
    absurd
      (ground (arith, on_session-absent call i (Media.relay_signal sender target now) h absent))
absent-Founds now (set_muted call actor target b creator) i h t v absent there =
    absurd (
      ground
        (arith, on_session-absent call i (Media.set_muted actor target b creator now) h absent))
absent-Founds now (set_video call user b) i h t v absent there =
    absurd (ground (arith, on_session-absent call i (Media.set_video user b now) h absent))
absent-Founds now (mark call user) i h t v absent there =
    absurd (ground (arith, on_session-absent call i (Join.mark user now) h absent))
absent-Founds now cleanup i h t v absent there =
    absurd (ground (arith, lookup-sweep now i h.group_calls v.keys))

-- In a well-formed hub, whoever is joined or a participant of a call after a command was so before,
-- or the command is their own request to join a call in which they are a participant, or the
-- approval of their pending request by the call's creator, or the command has created the call: then
-- only the creator is joined, and the participants are the creator and members of the group whom the
-- request names. A creation brings an id not in use.
pub step-Admits :
    (now : ℕ) (c : Command) (i : ℕ) (h : Hub) (t : GroupCallSession)
    → HubIsValid h
    → IsFresh c h
    → lookup i (step now c h).group_calls ≡ some t
    → AdmitsFrom c i (lookup i h.group_calls) t
step-Admits now c i h t v fresh there = elim (Option-cases (lookup i h.group_calls)) [
  | inl absent ↦ rw absent (absent-Founds now c i h t v absent there)
  | inr (s, found) ↦ rw found (there-Admits now c i h s t v fresh found there)
]
