-- ===== src/VoiceCall/Texts.antt =====
-- The texts of call types and statuses: models/call.model.go.
use link_up_server.Base.{◌≡◌, refl}
use link_up_server.Text.{to_lower, trim_space, text_eq}
use link_up_server.VoiceCall.Call.{
  CallType, CallStatus, type_text, status_text, parse_call_type, parse_call_status, voice, video,
  calling, ringing, connected, ended, missed, rejected, busy, cancelled,
}

parse_call_type-type_text : (t : CallType) → parse_call_type (type_text t) ≡ t
unfolding parse_call_type to_lower trim_space text_eq
parse_call_type-type_text voice = refl
parse_call_type-type_text video = refl

parse_call_status-status_text : (s : CallStatus) → parse_call_status (status_text s) ≡ s
unfolding parse_call_status to_lower trim_space text_eq
parse_call_status-status_text calling = refl
parse_call_status-status_text ringing = refl
parse_call_status-status_text connected = refl
parse_call_status-status_text ended = refl
parse_call_status-status_text missed = refl
parse_call_status-status_text rejected = refl
parse_call_status-status_text busy = refl
parse_call_status-status_text cancelled = refl

-- Every call type and every call status is read back from its text.
pub parse-text :
    (t : CallType) (s : CallStatus)
    → (parse_call_type (type_text t) ≡ t) × (parse_call_status (status_text s) ≡ s)
parse-text t s = (parse_call_type-type_text t, parse_call_status-status_text s)
