-- ===== src/Payment/Finality.antt =====
-- The payment services: a transaction that is no longer pending stays as it is.
use link_up_server.Base.{
  ℕ, ◌≡◌, subst, inl, inr, refl, Bool, true, false, Option, some, arith, lookup, insert,
  lookup-insert, Bool-cases, Option-cases,
}
use link_up_server.Text.{Text}
use link_up_server.Payment.Transaction.{
  PaymentTransaction, PaymentResult, is_pending, success, payment_update_fields, update_pending,
}
use link_up_server.Payment.Package.{
  Db, PartnerSubscription, subscribe_with_tx, get_active_subscription,
}
use link_up_server.Payment.Config.{Env, Faults}
use link_up_server.Payment.Settling.{Fresh, get_package_by_id, new_partner_subscription}
use link_up_server.Payment.Repository.{complete_payment}
use link_up_server.Payment.Outcomes.{
  subscribe_with_tx-Subscribed, Completed, undone, handled_before, transitioned,
  complete_payment-Completed,
}
use link_up_server.Payment.Callbacks.{RefsMatch}
use link_up_server.Payment.Settled.{
  Keeps, same-Keeps, insert-Keeps, callback-Keeps, created-Keeps, mark_failed-Keeps,
  create_vnpay_payment-Keeps, Subscribed-payments,
}
use link_up_server.Payment.Answers.{process_vnpay_callback-Outcome, process_momo_callback-Outcome}
use link_up_server.Payment.Vnpay.{Library}
use link_up_server.Payment.Creation.{create_momo_payment-cases}
use link_up_server.Payment.Momo.{MomoReply, create_momo_payment}
use link_up_server.Payment.Service.{subscribe_package}
use link_up_server.Payment.Expiry.{
  change_subscription-payments, process_expired_subscriptions-payments,
}
use link_up_server.Payment.Machine.{
  Command, create_vnpay, create_momo, vnpay_callback, momo_callback, subscribe, expire_all,
  use_slot, free_slot, step, Steps, done, next,
}

Keeps-trans : (a b c : Db) → Keeps a b → Keeps b c → Keeps a c
Keeps-trans a b c h k = record {
  settled = λ ref txn at final. k.settled ref txn (h.settled ref txn at final) final;
  refs = k.refs;
}

module _ (db : Db) (refs : RefsMatch db) where
  create_momo_payment-Keeps :
      (env : Env) (faults : Faults) (reply : MomoReply) (fails : Bool) (now : ℕ)
      (order request : Text) (user id : ℕ)
      → Keeps db (create_momo_payment env faults reply fails now order request user id db).1
  create_momo_payment-Keeps env faults reply fails now order request user id =
      create_momo_payment-cases db (Keeps db) env faults reply fails now order request user id
        (same-Keeps db refs db refl) (created-Keeps db refs)
        (λ txn db' ref result e.
          let k = created-Keeps db refs txn db' e in
          Keeps-trans db db' _ k (mark_failed-Keeps db' k.refs ref result now))

  subscribe_package-Keeps :
      (faults : Faults) (fresh : Fresh) (user id : ℕ)
      → Keeps db (subscribe_package faults fresh user id db).1
  unfolding subscribe_package
  subscribe_package-Keeps faults fresh user id =
      elim (Option-cases (get_package_by_id faults id db)) [
        | inl unknown ↦ rw (unknown, subscribe_package) (same-Keeps db refs db refl)
        | inr (pkg, at) ↦ elim (Bool-cases faults.current) [
          | inl broken ↦ rw (at, broken, subscribe_package) (same-Keeps db refs db refl)
          | inr known ↦ elim (Bool-cases faults.write) [
            | inl broken ↦ rw (at, known, broken, subscribe_package) (same-Keeps db refs db refl)
            | inr works ↦
                let old = get_active_subscription user fresh.now db in
                let new_sub = new_partner_subscription user pkg fresh in
                elim (Option-cases (subscribe_with_tx old new_sub fresh.role_row_id db)) [
                  | inl back ↦
                      rw (at, known, works, back, subscribe_package) (same-Keeps db refs db refl)
                  | inr (db', e) ↦
                      rw (at, known, works, e, subscribe_package)
                        (same-Keeps db refs db' (
                          Subscribed-payments db refs old new_sub db db' _
                            (subscribe_with_tx-Subscribed old new_sub fresh.role_row_id db) e))
                ]
          ]
        ]
      ]

pub step-Keeps :
    (lib : Library) (env : Env) (c : Command) (db : Db)
    → RefsMatch db
    → Keeps db (step lib env c db)
unfolding step
step-Keeps lib env (create_vnpay faults now ref user id ip) db refs =
    create_vnpay_payment-Keeps db refs lib env faults now ref user id ip
step-Keeps lib env (create_momo faults reply fails now order request user id) db refs =
    create_momo_payment-Keeps db refs env faults reply fails now order request user id
step-Keeps lib env (vnpay_callback faults fresh values) db refs =
    callback-Keeps db refs _ _ fresh _
      (process_vnpay_callback-Outcome lib env faults fresh values db refs)
step-Keeps lib env (momo_callback faults fresh values) db refs =
    callback-Keeps db refs _ _ fresh _
      (process_momo_callback-Outcome lib env faults fresh values db refs)
step-Keeps lib env (subscribe faults fresh user id) db refs =
    subscribe_package-Keeps db refs faults fresh user id
step-Keeps lib env (expire_all find_fails ef df now) db refs =
    same-Keeps db refs _ (process_expired_subscriptions-payments find_fails ef df now db)
step-Keeps lib env (use_slot id) db refs =
    same-Keeps db refs _ (change_subscription-payments id _ db)
step-Keeps lib env (free_slot id) db refs =
    same-Keeps db refs _ (change_subscription-payments id _ db)

pub Steps-Keeps :
    (lib : Library) (env : Env) (db db' : Db) → RefsMatch db → Steps lib env db db' → Keeps db db'
Steps-Keeps lib env db _ refs done = same-Keeps db refs db refl
Steps-Keeps lib env db _ refs (next c db' s) =
    let k = Steps-Keeps lib env db db' refs s in
    Keeps-trans db db' _ k (step-Keeps lib env c db' k.refs)

moved_before :
    (ref : ℕ) (result : PaymentResult) (active_sub : Option (ℕ × PartnerSubscription))
    (new_sub : PartnerSubscription) (now : ℕ) (db db' : Db) (o : Option (Bool × Db))
    → RefsMatch db
    → Completed ref result active_sub new_sub now db o
    → o ≡ some (true, db')
    → RefsMatch db'
      × ((txn : PaymentTransaction) × (lookup ref db'.payments ≡ some txn)
          × (is_pending txn.status ≡ false))
moved_before ref result a n now db db' _ refs undone e = cc
moved_before ref result a n now db db' _ refs (handled_before final) e = absurd (ground arith)
moved_before ref result a n now db db' _ refs (transitioned txn db'' found waits s) e =
    let new : PaymentTransaction = payment_update_fields success result now txn in
    let same : db'' ≡ db' = ground arith in
    let rows : db''.payments ≡ insert ref new db.payments =
      Subscribed-payments db refs a n _ db'' _ s refl in
    let kept : Keeps db db'' =
      insert-Keeps db refs db'' ref new rows (refs ref txn found)
        (λ old at. ground (arith, found)) in
    let at : lookup ref db''.payments ≡ some new =
      ground (arith, rows, lookup-insert ref ref new db.payments) in
    (
      subst RefsMatch same kept.refs,
      (new, subst (λ d. lookup ref d.payments ≡ some new) same at, refl),
    )

pub final-complete_payment :
    (ref : ℕ) (result : PaymentResult) (active_sub : Option (ℕ × PartnerSubscription))
    (new_sub : PartnerSubscription) (uuid now : ℕ) (db : Db) (txn : PaymentTransaction)
    → lookup ref db.payments ≡ some txn
    → is_pending txn.status ≡ false
    → complete_payment ref result active_sub new_sub uuid now db ≡ some (false, db)
unfolding complete_payment update_pending
final-complete_payment ref result a n uuid now db txn found final =
    rw (found, final, complete_payment) refl

-- When CompletePayment has moved a transaction, then whatever operations of the services follow, a later CompletePayment
-- for it, with any result, any subscription read before and any new one, moves nothing and leaves every table as it is:
-- a transaction gives at most one subscription. The condition is that every transaction stands under its reference.
pub complete_payment-once :
    (lib : Library) (env : Env) (ref uuid now uuid' now' : ℕ) (result result' : PaymentResult)
    (active_sub active_sub' : Option (ℕ × PartnerSubscription))
    (new_sub new_sub' : PartnerSubscription) (db db' after : Db)
    → RefsMatch db
    → complete_payment ref result active_sub new_sub uuid now db ≡ some (true, db')
    → Steps lib env db' after
    → complete_payment ref result' active_sub' new_sub' uuid' now' after ≡ some (false, after)
complete_payment-once lib env ref uuid now uuid' now' result result' a a' n n' db db' after refs
      paid steps =
    let first = complete_payment-Completed ref result a n uuid now db in
    let (refs', (txn, found, final)) = moved_before ref result a n now db db' _ refs first paid in
    let kept = Steps-Keeps lib env db' after refs' steps in
    final-complete_payment ref result' a' n' uuid' now' after txn (kept.settled ref txn found final)
      final
