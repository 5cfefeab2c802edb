-- ===== src/VoiceCall/Invariant.antt =====
-- services/voice_call.service.go: the reachable tables of calls, and how rows change in a step.
use link_up_server.Base.{
  ℕ, ◌≡◌, inl, inr, refl, sym, ◌∙◌, subst, true, some, [], arith, lookup, lookup-insert, Dict, ◌==◌,
  Bool-cases,
}
use link_up_server.VoiceCall.Call.{Call, CallStatus}
use link_up_server.VoiceCall.Table.{Db}
use link_up_server.VoiceCall.Service.{Env}
use link_up_server.VoiceCall.Row.{Evolves}
use link_up_server.VoiceCall.Machine.{Command, step, IsFresh, Write, unchanged, updated, created}
use link_up_server.VoiceCall.Writes.{step-Writes}
use link_up_server.VoiceCall.Rows.{leads, Write-CallsValid, step-CallsValid, CallsValid, Kept}

Write-Kept :
    {d d' : Dict Call} (i : ℕ) (c : Call)
    → Write d d'
    → CallsValid d
    → lookup i d ≡ some c
    → Kept d' i c
Write-Kept i c (unchanged same) v found = record {
  row = c;
  there = ground (arith, same);
  same_caller = refl;
  same_callee = refl;
  status = inl refl;
  over = λ o. refl;
}
Write-Kept {d} i c (updated j b b' at e new) v found = elim (Bool-cases (i == j)) [
  | inl here ↦
      let same : b ≡ c = ground arith in
      let e' = subst (λ x. Evolves x b') same (e (v.rows j b at).stored) in
      record {
        row = b';
        there = ground (arith, lookup-insert i j b' d);
        same_caller = e'.same_caller;
        same_callee = e'.same_callee;
        status = elim e'.status [ inl s ↦ inl s | inr s ↦ inr (ground arith) ];
        over = e'.final;
      }
  | inr other ↦ record {
    row = c;
    there = ground (arith, lookup-insert i j b' d);
    same_caller = refl;
    same_callee = refl;
    status = inl refl;
    over = λ o. refl;
  }
]
Write-Kept {d} i c (created b valid active free fresh new) v found = record {
  row = c;
  there = ground (arith, lookup-insert i b.id b d);
  same_caller = refl;
  same_callee = refl;
  status = inl refl;
  over = λ o. refl;
}

leads_trans : (s t u : CallStatus) → leads s t ≡ true → leads t u ≡ true → leads s u ≡ true
leads_trans s t u p q = ground arith

Kept-trans :
    {d' d'' : Dict Call} (i : ℕ) (c : Call) (k : Kept d' i c) → Kept d'' i k.row → Kept d'' i c
Kept-trans i c k l = record {
  row = l.row;
  there = l.there;
  same_caller = l.same_caller ∙ k.same_caller;
  same_callee = l.same_callee ∙ k.same_callee;
  status = elim k.status [
    | inl p ↦ elim l.status [ inl q ↦ inl (q ∙ p) | inr q ↦ inr (ground arith) ]
    | inr p ↦ elim l.status [
      | inl q ↦ inr (ground arith)
      | inr q ↦ inr (leads_trans c.status k.row.status l.row.status p q)
    ]
  ];
  over = λ o. ground (arith, k.over o, l.over);
}

-- The tables that commands reach from an empty table of calls; each step may find other friends and
-- connected users.
pub data Reach : Db → Type 0 where
  start : (db : Db) → db.calls ≡ [] → Reach db
  next :
      (env : Env) (now : ℕ) (c : Command) (db : Db)
      → Reach db
      → IsFresh c db.calls
      → Reach (step env now c db)

empty-CallsValid : CallsValid []
unfolding lookup
empty-CallsValid = record {
  keys = tt;
  ids = λ i c at. absurd (ground arith);
  rows = λ i c at. absurd (ground arith);
  called_once = λ i j c c' at. absurd (ground arith);
}

pub Reach-CallsValid : (db : Db) → Reach db → CallsValid db.calls
Reach-CallsValid _ (start db empty) = subst CallsValid (sym empty) empty-CallsValid
Reach-CallsValid _ (next env now c db r fresh) =
    step-CallsValid env now c db fresh (Reach-CallsValid db r)

-- In a valid table of calls, every command (a new call having an unused id), when no other request
-- writes the call's row between its read and its update, keeps every row: its parties stay, its
-- status stays or moves forward (a waiting call is connected or over next, a connected call can
-- only end), and a row that is over does not change at all.
pub step-Kept :
    (env : Env) (now : ℕ) (cmd : Command) (db : Db) (i : ℕ) (c : Call)
    → IsFresh cmd db.calls
    → CallsValid db.calls
    → lookup i db.calls ≡ some c
    → Kept (step env now cmd db).calls i c
step-Kept env now cmd db i c fresh v found =
    let w = step-Writes env now cmd db fresh in
    let k = Write-Kept i c w.first v found in
    Kept-trans i c k (Write-Kept i k.row w.second (Write-CallsValid w.first v) k.there)
