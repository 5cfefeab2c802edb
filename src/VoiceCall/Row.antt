-- ===== src/VoiceCall/Row.antt =====
-- models/call.model.go: what holds of a row of the calls table, and how an operation may change it.
use link_up_server.Base.{
  ℕ, ◌-◌, ◌/◌, ◌≡◌, ◌≢◌, ◌⊎◌, inl, inr, refl, Bool, true, false, not, ◌&&◌, ◌||◌, Option, none,
  some, arith, if◌then◌else◌, is_some,
}
use link_up_server.VoiceCall.Call.{
  Call, CallStatus, calling, ringing, connected, ended, busy, is_waiting, is_over, is_connected,
}
use link_up_server.VoiceCall.Table.{with_status, accepted, declined}
use link_up_server.VoiceCall.Service.{end_status, call_duration, second}

-- answered at some time
abbrev pub was_answered : CallStatus → Bool
was_answered connected = true
was_answered ended = true
was_answered _ = false

abbrev pub is_ended : CallStatus → Bool
is_ended ended = true
is_ended _ = false

-- whole seconds between the two times
abbrev pub span : Option ℕ → Option ℕ → ℕ
span none e = 0
span (some s) none = 0
span (some s) (some e) = (e - s) / second

pub record RowIsValid (c : Call) : Type 0 where
  pub parties : c.caller_id ≢ c.callee_id
  pub started : is_some c.started_at ≡ was_answered c.status
  pub over : is_some c.ended_at ≡ is_over c.status
  pub lasted : c.duration ≡ (if is_ended c.status then span c.started_at c.ended_at else 0)
  pub stored : c.status ≢ busy

-- The status changes of a call.
abbrev pub allowed : CallStatus → CallStatus → Bool
allowed calling s = is_connected s || is_over s && not (is_ended s)
allowed ringing s = is_connected s || is_over s && not (is_ended s)
allowed connected s = is_ended s
allowed _ s = false

pub record Evolves (c c' : Call) : Type 0 where
  pub same_id : c'.id ≡ c.id
  pub same_caller : c'.caller_id ≡ c.caller_id
  pub same_callee : c'.callee_id ≡ c.callee_id
  pub valid : RowIsValid c → RowIsValid c'
  pub status : (c'.status ≡ c.status) ⊎ (allowed c.status c'.status ≡ true)
  pub final : is_over c.status ≡ true → c' ≡ c

accepted_valid :
    (now : ℕ) (c : Call) → is_waiting c.status ≡ true → RowIsValid c → RowIsValid (accepted now c)
accepted_valid now c w v = record {
  parties = v.parties;
  started = refl;
  over = ground (arith, v.over);
  lasted = ground (arith, v.lasted);
  stored = ground arith;
}

declined_valid :
    (now : ℕ) (c : Call) → is_waiting c.status ≡ true → RowIsValid c → RowIsValid (declined now c)
declined_valid now c w v = record {
  parties = v.parties;
  started = ground (arith, v.started);
  over = refl;
  lasted = ground (arith, v.lasted);
  stored = ground arith;
}

waiting_not_over : (s : CallStatus) → is_waiting s ≡ true → is_over s ≡ true → ⊥
waiting_not_over calling w o = cc
waiting_not_over _ w o = cc

pub accepted-Evolves :
    (now : ℕ) (c : Call) → is_waiting c.status ≡ true → Evolves c (accepted now c)
accepted-Evolves now c w = record {
  same_id = refl;
  same_caller = refl;
  same_callee = refl;
  valid = accepted_valid now c w;
  status = inr (ground arith);
  final = λ o. absurd (waiting_not_over c.status w o);
}

pub declined-Evolves :
    (now : ℕ) (c : Call) → is_waiting c.status ≡ true → Evolves c (declined now c)
declined-Evolves now c w = record {
  same_id = refl;
  same_caller = refl;
  same_callee = refl;
  valid = declined_valid now c w;
  status = inr (ground arith);
  final = λ o. absurd (waiting_not_over c.status w o);
}

-- A change of the media flags of a connected call.
pub flags-Evolves :
    (c : Call) (a b d e : Bool)
    → is_connected c.status ≡ true
    → Evolves c (record c {
      muted_caller = a;
      muted_callee = b;
      video_enabled_caller = d;
      video_enabled_callee = e;
    })
flags-Evolves c a b d e on = record {
  same_id = refl;
  same_caller = refl;
  same_callee = refl;
  valid = λ v. record {
    parties = v.parties;
    started = v.started;
    over = v.over;
    lasted = v.lasted;
    stored = v.stored;
  };
  status = inl refl;
  final = λ o. absurd (ground arith);
}

-- The row as EndCall leaves it.
abbrev pub finished : ℕ → ℕ → Call → Call
finished now user c =
    with_status (end_status user c) none (some now) (call_duration now c.started_at) c

call_duration-span : (now : ℕ) (s : Option ℕ) → call_duration now s ≡ span s (some now)
unfolding call_duration
call_duration-span now none = refl
call_duration-span now (some t) = refl

finished_valid :
    (now user : ℕ) (c : Call)
    → is_over c.status ≡ false
    → RowIsValid c
    → RowIsValid (finished now user c)
unfolding with_status end_status call_duration
finished_valid now user c o v = record {
  parties = v.parties;
  started = ground (arith, v.started, v.stored);
  over = ground (arith, v.stored);
  lasted = ground (arith, v.lasted, v.started, v.stored, call_duration-span now c.started_at);
  stored = ground arith;
}

pub finished-Evolves :
    (now user : ℕ) (c : Call)
    → is_over c.status ≡ false
    → c.status ≢ busy
    → Evolves c (finished now user c)
unfolding with_status end_status
finished-Evolves now user c o b = record {
  same_id = refl;
  same_caller = refl;
  same_callee = refl;
  valid = finished_valid now user c o;
  status = inr (ground arith);
  final = λ k. absurd (ground arith);
}
