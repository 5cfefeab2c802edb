-- ===== src/VoiceCall/Rows.antt =====
-- services/voice_call.service.go: valid tables of calls, and the writes to them.
use link_up_server.Base.{
  ℕ, ◌≡◌, ◌≢◌, ◌⊎◌, inl, inr, sym, subst, Bool, true, ◌&&◌, ◌||◌, some, [], ◌∷◌, arith, lookup,
  insert, lookup-insert, insert-Distinct, Dict, ◌==◌, Bool-cases, Distinct,
}
use link_up_server.VoiceCall.Call.{Call, CallStatus, is_active, is_waiting, is_over}
use link_up_server.VoiceCall.Table.{Db, count_active}
use link_up_server.VoiceCall.Service.{Env}
use link_up_server.VoiceCall.Row.{RowIsValid, Evolves, allowed, is_ended}
use link_up_server.VoiceCall.Machine.{Command, step, IsFresh, Write, unchanged, updated, created}
use link_up_server.VoiceCall.Writes.{step-Writes}

-- The rows are well formed and stand at their ids, and a user is called in at most one call in
-- progress.
pub record CallsValid (d : Dict Call) : Type 0 where
  pub keys : Distinct d
  pub ids : (i : ℕ) (c : Call) → lookup i d ≡ some c → c.id ≡ i
  pub rows : (i : ℕ) (c : Call) → lookup i d ≡ some c → RowIsValid c
  pub called_once :
      (i j : ℕ) (c c' : Call)
      → lookup i d ≡ some c
      → lookup j d ≡ some c'
      → is_active c.status ≡ true
      → is_active c'.status ≡ true
      → c.callee_id ≡ c'.callee_id
      → i ≡ j

-- A status change over any number of steps.
abbrev pub leads : CallStatus → CallStatus → Bool
leads s t = allowed s t || is_waiting s && is_ended t

-- A row is still there, changed as a call may change.
pub record Kept (d' : Dict Call) (i : ℕ) (c : Call) : Type 0 where
  pub row : Call
  pub there : lookup i d' ≡ some row
  pub same_caller : row.caller_id ≡ c.caller_id
  pub same_callee : row.callee_id ≡ c.callee_id
  pub status : (row.status ≡ c.status) ⊎ (leads c.status row.status ≡ true)
  pub over : is_over c.status ≡ true → row ≡ c

pub count_active-absent :
    (user : ℕ) (d : Dict Call) (i : ℕ) (c : Call)
    → count_active user d ≡ 0
    → lookup i d ≡ some c
    → is_active c.status ≡ true
    → c.callee_id ≢ user
unfolding count_active lookup
count_active-absent user [] i c none_active found active = absurd (ground arith)
count_active-absent user ((k, b) ∷ d) i c none_active found active = elim (Bool-cases (k == i)) [
  | inl here ↦ ground arith
  | inr other ↦ count_active-absent user d i c (ground arith) (ground arith) active
]

pub active_before :
    (c c' : Call) → Evolves c c' → is_active c'.status ≡ true → is_active c.status ≡ true
active_before c c' e active = elim e.status [
  | inl same ↦ ground (arith)
  | inr moved ↦ ground (arith)
]

pub updated-CallsValid :
    (i : ℕ) (c c' : Call) (d : Dict Call)
    → CallsValid d
    → lookup i d ≡ some c
    → Evolves c c'
    → CallsValid (insert i c' d)
updated-CallsValid i c c' d v found e = record {
  keys = insert-Distinct i c' d v.keys;
  ids = λ j b at. ground (arith, lookup-insert j i c' d, v.ids j b, v.ids i c found, e.same_id);
  rows = λ j b at. elim (Bool-cases (j == i)) [
    | inl here ↦
        subst RowIsValid (ground (arith, lookup-insert j i c' d)) (e.valid (v.rows i c found))
    | inr other ↦ v.rows j b (ground (arith, lookup-insert j i c' d))
  ];
  called_once = λ j k a b at_j at_k active_a active_b same. ground (
    arith,
    lookup-insert j i c' d,
    lookup-insert k i c' d,
    active_before c c' e,
    v.called_once j k a b,
    v.called_once i k c b found,
    v.called_once j i a c,
    e.same_callee,
    found,
  );
}

pub created-CallsValid :
    (c : Call) (d : Dict Call)
    → CallsValid d
    → RowIsValid c
    → count_active c.callee_id d ≡ 0
    → CallsValid (insert c.id c d)
created-CallsValid c d v valid free = record {
  keys = insert-Distinct c.id c d v.keys;
  ids = λ j b at. ground (arith, lookup-insert j c.id c d, v.ids j b);
  rows = λ j b at. elim (Bool-cases (j == c.id)) [
    | inl here ↦ subst RowIsValid (ground (arith, lookup-insert j c.id c d)) valid
    | inr other ↦ v.rows j b (ground (arith, lookup-insert j c.id c d))
  ];
  called_once = λ j k a b at_j at_k active_a active_b same. ground (
    arith,
    lookup-insert j c.id c d,
    lookup-insert k c.id c d,
    v.called_once j k a b,
    count_active-absent c.callee_id d k b free,
    count_active-absent c.callee_id d j a free,
  );
}

pub Write-CallsValid : {d d' : Dict Call} → Write d d' → CallsValid d → CallsValid d'
Write-CallsValid (unchanged same) v = subst CallsValid (sym same) v
Write-CallsValid {d} (updated i c c' found e new) v =
    subst CallsValid (sym new) (updated-CallsValid i c c' d v found (e (v.rows i c found).stored))
Write-CallsValid {d} (created c valid active free fresh new) v =
    subst CallsValid (sym new) (created-CallsValid c d v valid free)

pub step-CallsValid :
    (env : Env) (now : ℕ) (c : Command) (db : Db)
    → IsFresh c db.calls
    → CallsValid db.calls
    → CallsValid (step env now c db).calls
step-CallsValid env now c db fresh v =
    let w = step-Writes env now c db fresh in Write-CallsValid w.second (Write-CallsValid w.first v)
