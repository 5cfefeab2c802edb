-- ===== src/VoiceCall/Call.antt =====
-- models/call.model.go: a call, its types and its statuses, with their texts.
use link_up_server.Base.{ℕ, Bool, true, false, Option, if◌then◌else◌}
use link_up_server.Text.{Text, codes, text_eq, to_lower, trim_space}

pub data CallType : Type 0 where
  voice video : CallType

pub data CallStatus : Type 0 where
  calling ringing connected ended missed rejected busy cancelled : CallStatus

-- `CallType.String` and `CallStatus.String`: the constants' texts.
abbrev pub type_text : CallType → Text
type_text voice = codes "voice"
type_text video = codes "video"

abbrev pub status_text : CallStatus → Text
status_text calling = codes "calling"
status_text ringing = codes "ringing"
status_text connected = codes "connected"
status_text ended = codes "ended"
status_text missed = codes "missed"
status_text rejected = codes "rejected"
status_text busy = codes "busy"
status_text cancelled = codes "cancelled"

unfoldable pub parse_call_type : Text → CallType
parse_call_type value =
    let t = to_lower (trim_space value) in
    if text_eq t (type_text voice)
    then voice
    else if text_eq t (type_text video)
    then video
    else voice

unfoldable pub parse_call_status : Text → CallStatus
parse_call_status value =
    let t = to_lower (trim_space value) in
    if text_eq t (status_text calling)
    then calling
    else if text_eq t (status_text ringing)
    then ringing
    else if text_eq t (status_text connected)
    then connected
    else if text_eq t (status_text ended)
    then ended
    else if text_eq t (status_text missed)
    then missed
    else if text_eq t (status_text rejected)
    then rejected
    else if text_eq t (status_text busy)
    then busy
    else if text_eq t (status_text cancelled)
    then cancelled
    else ended

pub record Call : Type 0 where
  pub id : ℕ
  pub caller_id : ℕ
  pub callee_id : ℕ
  pub call_type : CallType
  pub is_group : Bool
  pub status : CallStatus
  pub started_at : Option ℕ
  pub ended_at : Option ℕ
  pub duration : ℕ
  pub muted_caller : Bool
  pub muted_callee : Bool
  pub video_enabled_caller : Bool
  pub video_enabled_callee : Bool
  pub created_at : ℕ

-- calling, ringing or connected: the list in the queries for a call in progress
abbrev pub is_active : CallStatus → Bool
is_active calling = true
is_active ringing = true
is_active connected = true
is_active _ = false

-- calling or ringing
abbrev pub is_waiting : CallStatus → Bool
is_waiting calling = true
is_waiting ringing = true
is_waiting _ = false

-- the statuses at which `EndCall` says that the call has ended
abbrev pub is_over : CallStatus → Bool
is_over ended = true
is_over rejected = true
is_over missed = true
is_over cancelled = true
is_over _ = false

abbrev pub is_connected : CallStatus → Bool
is_connected connected = true
is_connected _ = false

abbrev pub is_missed : CallStatus → Bool
is_missed missed = true
is_missed _ = false

abbrev pub is_video : CallType → Bool
is_video video = true
is_video voice = false
