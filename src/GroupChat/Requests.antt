-- ===== src/GroupChat/Requests.antt =====
-- services/group_chat.service.go: invitations of members, and their answers.
use link_up_server.Base.{
  ℕ, Bool, not, ◌&&◌, none, some, [], ◌∷◌, ◌++◌, if◌then◌else◌, ◌==◌, lookup, insert, any_row,
}
use link_up_server.GroupChat.Tables.{
  MemberRequest, Groups, pending, approved, rejected, is_pending, is_user_member, is_user_admin,
  is_user_banned, get_settings, accept_request,
}
use link_up_server.GroupChat.Service.{
  Outcome, fail, ok, self_invite, not_member, not_admin_invite, banned, already_member,
  pending_request, request_not_found, request_not_own, request_already_handled, approve_failed,
  notify_enabled, invite_message, invite_status, system_message, invited, accepted_invitation,
  rejected_invitation,
}

-- `chat_id = ? AND target_user_id = ? AND status = 'pending'`
abbrev pub asks : ℕ → ℕ → ℕ × MemberRequest → Bool
asks chat target e = e.1.chat_id == chat && e.1.target_user_id == target && is_pending e.1.status

-- addMemberRequest
unfoldable pub add_member_request : ℕ → ℕ → ℕ → ℕ → ℕ → Groups → Outcome
add_member_request uuid now chat requester target g =
    if requester == target
    then fail self_invite g
    else if not (is_user_member chat requester g)
    then fail not_member g
    else if not (get_settings chat g).allow_member_add && not (is_user_admin chat requester g)
    then fail not_admin_invite g
    else if is_user_banned chat target g
    then fail banned g
    else if is_user_member chat target g
    then fail already_member g
    else if any_row (asks chat target) g.requests
    then fail pending_request g
    else let g' = record g {
      requests =
          insert uuid
            (record {
              chat_id = chat;
              requester_id = requester;
              target_user_id = target;
              status = pending;
              created_at = now;
              responded_at = none;
            })
            g.requests;
    } in
      (
        ok,
        g',
        notify_enabled chat (target ∷ []) invited g' ++ invite_message uuid requester target ∷ [],
      )

-- ApproveMemberRequest from its transaction on, which does not look at the bans.
unfoldable pub store_approval : ℕ → ℕ → ℕ → ℕ → MemberRequest → Groups → Outcome
store_approval now chat target id request g = elim (accept_request id now g) [
  | none ↦ fail approve_failed g
  | some g' ↦ (
    ok,
    g',
    invite_status id approved
          ∷ notify_enabled chat (request.requester_id ∷ []) accepted_invitation g'
        ++ system_message chat invited target (request.requester_id ∷ []) ∷ [],
  )
]

-- ApproveMemberRequest from the test on the ban on, when nothing comes between its queries and its
-- transaction.
unfoldable pub approve_request : ℕ → ℕ → ℕ → ℕ → MemberRequest → Groups → Outcome
approve_request now chat target id request g =
    if is_user_banned chat target g
    then fail banned g
    else if is_user_member chat target g
    then fail already_member g
    else store_approval now chat target id request g

-- ApproveMemberRequest, when nothing comes between its statements
unfoldable pub approve_member_request : ℕ → ℕ → ℕ → ℕ → Groups → Outcome
approve_member_request now chat target id g = elim (lookup id g.requests) [
  | none ↦ fail request_not_found g
  | some request ↦
      if not (request.chat_id == chat)
      then fail request_not_own g
      else if not (request.target_user_id == target)
      then fail request_not_own g
      else if not (is_pending request.status)
      then fail request_already_handled g
      else approve_request now chat target id request g
]

-- RejectMemberRequest
unfoldable pub reject_member_request : ℕ → ℕ → ℕ → ℕ → Groups → Outcome
reject_member_request now chat target id g = elim (lookup id g.requests) [
  | none ↦ fail request_not_found g
  | some request ↦
      if not (request.chat_id == chat)
      then fail request_not_own g
      else if not (request.target_user_id == target)
      then fail request_not_own g
      else if not (is_pending request.status)
      then fail request_already_handled g
      else let g' = record g {
        requests =
            insert id (record request { status = rejected; responded_at = some now }) g.requests;
      } in
        (
          ok,
          g',
          invite_status id rejected
              ∷ notify_enabled chat (request.requester_id ∷ []) rejected_invitation g',
        )
]
