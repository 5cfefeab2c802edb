-- ===== src/Payment/History.antt =====
-- The payment services over time: a user has at most one current subscription.
use link_up_server.Base.{
  ℕ, ◌≡◌, ◌≤◌, sym, inl, inr, refl, Bool, true, false, some, List, [], ◌∷◌, arith, ltb, lookup,
  create_row, Bool-cases, Option-cases,
}
use link_up_server.Payment.Transaction.{PaymentTransaction, PaymentResult, failed, update_pending}
use link_up_server.Payment.Package.{Db, subscribe_with_tx, expired, get_active_subscription}
use link_up_server.Payment.Config.{Env, Faults, CallbackResult}
use link_up_server.Payment.Settling.{Fresh, get_package_by_id, new_partner_subscription}
use link_up_server.Payment.Repository.{create_payment, mark_failed}
use link_up_server.Payment.Outcomes.{subscribe_with_tx-Subscribed}
use link_up_server.Payment.Callbacks.{RefsMatch, Outcome, refused, repeated, declined, paid_for}
use link_up_server.Payment.Current.{
  OneCurrent, later-OneCurrent, change-OneCurrent, Subscribed-OneCurrent,
}
use link_up_server.Payment.Finality.{step-Keeps}
use link_up_server.Payment.Expiry.{Round, skipped, ended, expire_one-Round}
use link_up_server.Payment.Answers.{process_vnpay_callback-Outcome, process_momo_callback-Outcome}
use link_up_server.Payment.Vnpay.{Library}
use link_up_server.Payment.Service.{
  subscribe_package, expire_one, expire_each, find_expired_subscriptions,
  process_expired_subscriptions,
}
use link_up_server.Payment.Creation.{create_vnpay_payment-cases, create_momo_payment-cases}
use link_up_server.Payment.Machine.{
  Command, create_vnpay, create_momo, vnpay_callback, momo_callback, subscribe, expire_all,
  use_slot, free_slot, step,
}

callback-OneCurrent :
    (ref : ℕ) (is_paid : Bool) (fresh : Fresh) (db : Db) (o : CallbackResult × Db)
    → OneCurrent fresh.now db.subscriptions
    → Outcome ref is_paid fresh db o
    → OneCurrent fresh.now o.1.subscriptions
callback-OneCurrent ref is_paid fresh db _ v (refused r e) = v
callback-OneCurrent ref is_paid fresh db _ v (repeated r txn e a found final) = v
callback-OneCurrent ref is_paid fresh db _ v (declined r txn result e p found waits) = v
callback-OneCurrent ref is_paid fresh db _ v
      (paid_for r txn result pkg db' e a p found waits pk s) =
    Subscribed-OneCurrent fresh.now (new_partner_subscription txn.user_id pkg fresh) db _ db' _ refl
      v s refl

subscribe_package-OneCurrent :
    (faults : Faults) (fresh : Fresh) (user id : ℕ) (db : Db)
    → OneCurrent fresh.now db.subscriptions
    → OneCurrent fresh.now (subscribe_package faults fresh user id db).1.subscriptions
unfolding subscribe_package
subscribe_package-OneCurrent faults fresh user id db v =
    elim (Option-cases (get_package_by_id faults id db)) [
      | inl unknown ↦ rw (unknown, subscribe_package) v
      | inr (pkg, at) ↦ elim (Bool-cases faults.current) [
        | inl broken ↦ rw (at, broken, subscribe_package) v
        | inr known ↦ elim (Bool-cases faults.write) [
          | inl broken ↦ rw (at, known, broken, subscribe_package) v
          | inr works ↦
              let old = get_active_subscription user fresh.now db in
              let new_sub = new_partner_subscription user pkg fresh in
              elim (Option-cases (subscribe_with_tx old new_sub fresh.role_row_id db)) [
                | inl back ↦ rw (at, known, works, back, subscribe_package) v
                | inr (db', e) ↦
                    rw (at, known, works, e, subscribe_package)
                      (Subscribed-OneCurrent fresh.now new_sub db db db' _ refl v
                        (subscribe_with_tx-Subscribed old new_sub fresh.role_row_id db) e)
              ]
        ]
      ]
    ]

Round-OneCurrent :
    (now id : ℕ) (db db' : Db)
    → Round id db db'
    → OneCurrent now db.subscriptions
    → OneCurrent now db'.subscriptions
Round-OneCurrent now id db _ skipped v = v
Round-OneCurrent now id db db' (ended _ subs same) v = rw subs (
    change-OneCurrent now id (λ sub. record sub { status = expired }) db
      (λ user s h. absurd (ground arith)) v)

expire_each-OneCurrent :
    (expire_fails downgrade_fails : ℕ → Bool) (now : ℕ) (subs : List (ℕ × ℕ)) (db : Db)
    → OneCurrent now db.subscriptions
    → OneCurrent now (expire_each expire_fails downgrade_fails subs db).1.subscriptions
unfolding expire_each
expire_each-OneCurrent ef df now [] db v = v
expire_each-OneCurrent ef df now ((id, user) ∷ subs) db v =
    expire_each-OneCurrent ef df now subs (expire_one (ef id) (df id) (id, user) db).1
      (Round-OneCurrent now id db _ (expire_one-Round (ef id) (df id) id user db) v)

process_expired_subscriptions-OneCurrent :
    (find_fails : Bool) (expire_fails downgrade_fails : ℕ → Bool) (now : ℕ) (db : Db)
    → OneCurrent now db.subscriptions
    → OneCurrent now
        (process_expired_subscriptions find_fails expire_fails downgrade_fails now
          db).1.subscriptions
unfolding process_expired_subscriptions
process_expired_subscriptions-OneCurrent true ef df now db v = v
process_expired_subscriptions-OneCurrent false ef df now db v =
    expire_each-OneCurrent ef df now (find_expired_subscriptions now db.subscriptions) db v

mark_failed-subscriptions :
    (ref : ℕ) (result : PaymentResult) (now : ℕ) (db : Db)
    → (mark_failed ref result now db).1.subscriptions ≡ db.subscriptions
unfolding mark_failed
mark_failed-subscriptions ref result now db =
    elim (Option-cases (update_pending ref failed result now db.payments)) [
      | inl none_yet ↦ rw (none_yet, mark_failed) refl
      | inr (rows, e) ↦ rw (e, mark_failed) refl
    ]

create_payment-subscriptions :
    (txn : PaymentTransaction) (db db' : Db)
    → create_payment txn db ≡ some db'
    → db'.subscriptions ≡ db.subscriptions
unfolding create_payment create_row
create_payment-subscriptions txn db db' = elim (Option-cases (lookup txn.txn_ref db.payments)) [
  | inl free ↦ rw (free, create_payment) (λ e. ground arith)
  | inr (old, taken) ↦ rw (taken, create_payment) (λ e. cc)
]

-- A command acts at a time; the counters of slots can change at any time.
abbrev pub ActsAt : ℕ → Command → Type 0
ActsAt now (create_vnpay faults t ref user id ip) = t ≡ now
ActsAt now (create_momo faults reply fails t order request user id) = t ≡ now
ActsAt now (vnpay_callback faults fresh values) = fresh.now ≡ now
ActsAt now (momo_callback faults fresh values) = fresh.now ≡ now
ActsAt now (subscribe faults fresh user id) = fresh.now ≡ now
ActsAt now (expire_all find_fails expire_fails downgrade_fails t) = t ≡ now
ActsAt now (use_slot id) = Unit
ActsAt now (free_slot id) = Unit

step-OneCurrent :
    (lib : Library) (env : Env) (c : Command) (now : ℕ) (db : Db)
    → RefsMatch db
    → ActsAt now c
    → OneCurrent now db.subscriptions
    → OneCurrent now (step lib env c db).subscriptions
unfolding step
step-OneCurrent lib env (create_vnpay faults t ref user id ip) now db refs e v =
    create_vnpay_payment-cases db (λ d. OneCurrent now d.subscriptions) lib env faults t ref user id
      ip v (λ txn db' made. rw (create_payment-subscriptions txn db db' made) v)
step-OneCurrent lib env (create_momo faults reply fails t order request user id) now db refs e v =
    create_momo_payment-cases db (λ d. OneCurrent now d.subscriptions) env faults reply fails t
      order request user id v (λ txn db' made. rw (create_payment-subscriptions txn db db' made) v)
      (λ txn db' ref result made.
        rw
          (mark_failed-subscriptions ref result t db', create_payment-subscriptions txn db db' made)
          v)
step-OneCurrent lib env (vnpay_callback faults fresh values) now db refs e v = rw (sym e) (
    callback-OneCurrent _ _ fresh db _ (rw e v)
      (process_vnpay_callback-Outcome lib env faults fresh values db refs))
step-OneCurrent lib env (momo_callback faults fresh values) now db refs e v = rw (sym e) (
    callback-OneCurrent _ _ fresh db _ (rw e v)
      (process_momo_callback-Outcome lib env faults fresh values db refs))
step-OneCurrent lib env (subscribe faults fresh user id) now db refs e v =
    rw (sym e) (subscribe_package-OneCurrent faults fresh user id db (rw e v))
step-OneCurrent lib env (expire_all find_fails ef df t) now db refs e v =
    rw (sym e) (process_expired_subscriptions-OneCurrent find_fails ef df t db (rw e v))
step-OneCurrent lib env (use_slot id) now db refs e v =
    change-OneCurrent now id _ db (λ user s h. h) v
step-OneCurrent lib env (free_slot id) now db refs e v =
    change-OneCurrent now id _ db
      (λ user s. elim (Bool-cases (ltb 0 s.slots_used)) [
        | inl some_used ↦ rw some_used (λ h. h)
        | inr unused ↦ rw unused (λ h. h)
      ])
      v

-- The tables at a time, after commands one after another from empty tables of transactions and subscriptions.
pub data History (lib : Library) (env : Env) : ℕ → Db → Type 0 where
  begin : (now : ℕ) (db : Db) → db.payments ≡ [] → db.subscriptions ≡ [] → History lib env now db
  later :
      (now now' : ℕ) (c : Command) (db : Db)
      → now ≤ now'
      → ActsAt now' c
      → History lib env now db
      → History lib env now' (step lib env c db)

-- At every time of a history of the payment services, in which no two operations overlap, whatever calls of the database fail, every transaction stands under its
-- reference, no id of a subscription stands twice, and every user has at most one subscription that is active and not expired.
pub History-OneCurrent :
    (lib : Library) (env : Env) (now : ℕ) (db : Db)
    → History lib env now db
    → RefsMatch db × OneCurrent now db.subscriptions
unfolding lookup
History-OneCurrent lib env now db (begin _ _ p s) = (
  rw p (λ ref txn at. absurd (ground arith)),
  rw s (record { keys = tt; one = λ user i j a b at. absurd (ground arith) }),
)
History-OneCurrent lib env _ _ (later now now' c db le e h) =
    let (refs, v) = History-OneCurrent lib env now db h in
    let kept = step-Keeps lib env c db refs in
    (kept.refs, step-OneCurrent lib env c now' db refs e (later-OneCurrent now now' _ le v))
