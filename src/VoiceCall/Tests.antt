-- ===== src/VoiceCall/Tests.antt =====
-- Runs of the operations on calls, and the theorems about them at concrete inputs.
use link_up_server.Base.{
  ◌≡◌, ◌-◌, ◌++◌, refl, true, false, none, some, [], ◌∷◌, arith, lookup, insert, ◌==◌,
  if◌then◌else◌,
}
use link_up_server.Text.{codes, text_eq, trim_space, to_lower}
use link_up_server.VoiceCall.Call.{Call, voice, connected, missed, calling, parse_call_type}
use link_up_server.VoiceCall.Table.{
  Db, accepted, count_active, create_if_not_busy, update_status, update_call, with_status,
  find_active,
}
use link_up_server.VoiceCall.Service.{
  Env, new_call, payload_of, unix_milli, initiate_call, ring, accept_call, end_call, check_end,
  write_end, end_status, cleanup_disconnected_calls, send_to_user, notify_missed, call_status,
}
use link_up_server.VoiceCall.Machine.{initiate, end_it, step}
use link_up_server.VoiceCall.Invariant.{start, next, Reach-CallsValid, step-Kept}
use link_up_server.VoiceCall.Rows.{CallsValid, Kept}
use link_up_server.VoiceCall.Answers.{Answered, accept_call-Answered, initiate_call-offline}
use link_up_server.VoiceCall.Busy.{cleanup_disconnected_calls-count}

-- Everybody is a friend of everybody, and all but user 3 are connected.
abbrev env : Env
env = record {
  is_accepted_friend = λ a b. true;
  is_user_online = λ u. if u == 3 then false else true;
  has_notif_service = true;
}

abbrev empty_db : Db
empty_db = record { calls = []; hidden = []; last_read = (2, none) ∷ (3, none) ∷ [] }

-- User 1 calls user 2, then user 4: two calls in progress with user 1.
abbrev first_call : Call
first_call = new_call 7 5 1 2 voice

abbrev one_call : Db
one_call = record empty_db { calls = (7, first_call) ∷ [] }

abbrev two_calls : Db
two_calls =
    step env 6 (initiate 8 1 4 (codes "video"))
      (step env 5 (initiate 7 1 2 (codes "voice")) empty_db)

two_calls-CallsValid : CallsValid two_calls.calls
unfolding lookup step initiate_call create_if_not_busy ring insert parse_call_type text_eq
    trim_space to_lower count_active
two_calls-CallsValid = Reach-CallsValid two_calls (
    next env 6 (initiate 8 1 4 (codes "video"))
      (step env 5 (initiate 7 1 2 (codes "voice")) empty_db)
      (next env 5 (initiate 7 1 2 (codes "voice")) empty_db (start empty_db refl) refl) refl)

one_call-CallsValid : CallsValid one_call.calls
unfolding lookup step initiate_call create_if_not_busy ring insert parse_call_type text_eq
    trim_space to_lower count_active
one_call-CallsValid =
    Reach-CallsValid one_call
      (next env 5 (initiate 7 1 2 (codes "voice")) empty_db (start empty_db refl) refl)

-- The caller may be in two calls at once, and the cleanup ends the newer one only.
still_busy :
    (count_active 1 two_calls.calls ≡ 2)
    × (count_active 1 (cleanup_disconnected_calls env 9 1 two_calls).1.calls ≡ 1)
unfolding lookup step initiate_call create_if_not_busy ring insert parse_call_type text_eq
    trim_space to_lower count_active cleanup_disconnected_calls end_call check_end write_end
    end_status find_active update_status update_call with_status
still_busy = (refl, refl)

step-Kept_example : Kept (step env 9 (end_it 1 7) two_calls).calls 7 first_call
unfolding lookup step initiate_call create_if_not_busy ring insert parse_call_type text_eq
    trim_space to_lower count_active
step-Kept_example = step-Kept env 9 (end_it 1 7) two_calls 7 first_call tt two_calls-CallsValid refl

accept_call-Answered_example :
    Answered
      (accepted 9)
      (payload_of connected (some (unix_milli 9)) none 0)
      2
      7
      one_call
      (accept_call 9 2 7 one_call)
accept_call-Answered_example = accept_call-Answered 9 2 7 one_call

initiate_call-offline_example :
    (lookup 9 (initiate_call env 9 6 1 3 (codes "voice") one_call).1.calls
      ≡ some (record (new_call 9 6 1 3 (parse_call_type (codes "voice"))) {
        status = missed;
        ended_at = some 6;
      }))
    × ((initiate_call env 9 6 1 3 (codes "voice") one_call).2
        ≡ send_to_user 1 (
            call_status (
              payload_of missed none
                (some (unix_milli 6))
                0
                (new_call 9 6 1 3 (parse_call_type (codes "voice")))))
          ∷ (notify_missed env 3 1
              ++ send_to_user 1 (
                  call_status (
                    payload_of calling none none 0
                      (new_call 9 6 1 3 (parse_call_type (codes "voice")))))
                ∷ []))
unfolding count_active
initiate_call-offline_example =
    initiate_call-offline env 9 6 1 3 (codes "voice") one_call (λ e. ground arith) refl refl refl

cleanup_disconnected_calls-count_example :
    count_active 1 (cleanup_disconnected_calls env 9 1 two_calls).1.calls
    ≡ count_active 1 two_calls.calls - 1
cleanup_disconnected_calls-count_example =
    cleanup_disconnected_calls-count env 9 1 two_calls two_calls-CallsValid
