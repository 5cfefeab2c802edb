-- ===== src/Payment/Callbacks.antt =====
-- services/payment.service.go and services/momo.service.go: what a callback of a gateway does with
-- the tables, by cases.
use link_up_server.Base.{
  ℕ, ◌≡◌, inl, inr, refl, subst, Bool, true, false, Option, some, if◌then◌else◌, arith, Dict,
  lookup, insert, Bool-cases, Option-cases,
}
use link_up_server.Payment.Transaction.{
  PaymentTransaction, PaymentResult, PaymentStatus, is_pending, is_success, payment_update_fields,
  success, failed, pending, cancelled,
}
use link_up_server.Payment.Package.{AdPackage, Db, get_active_subscription}
use link_up_server.Payment.Repository.{marked, mark_failed}
use link_up_server.Payment.Config.{CallbackResult, Faults, update_failed, not_paid}
use link_up_server.Payment.Outcomes.{
  Updated, untouched, moved, update_pending-Updated, Subscribed, Completed, undone, handled_before,
  transitioned, complete_payment-Completed,
}
use link_up_server.Payment.Settling.{
  Fresh, internal_error, new_partner_subscription, get_package_by_id, attempt, completed, activate,
  settle,
}

-- Every transaction stands under its reference.
abbrev pub RefsMatch : Db → Type 0
RefsMatch db =
    (ref : ℕ) (txn : PaymentTransaction) → lookup ref db.payments ≡ some txn → txn.txn_ref ≡ ref

-- What a callback for the transaction `ref` answers and does; the flag is whether the gateway was paid.
pub data Outcome (ref : ℕ) (is_paid : Bool) (fresh : Fresh) (db : Db)
    : CallbackResult × Db → Type 0 where
  refused : (r : CallbackResult) → r.success ≡ false → Outcome ref is_paid fresh db (r, db)
  repeated :
      (r : CallbackResult) (txn : PaymentTransaction)
      → r.success ≡ true
      → r.already_confirmed ≡ true
      → lookup ref db.payments ≡ some txn
      → is_pending txn.status ≡ false
      → Outcome ref is_paid fresh db (r, db)
  declined :
      (r : CallbackResult) (txn : PaymentTransaction) (result : PaymentResult)
      → r.success ≡ false
      → is_paid ≡ false
      → lookup ref db.payments ≡ some txn
      → is_pending txn.status ≡ true
      → Outcome ref is_paid fresh db (
        r,
        record db {
          payments = insert ref (payment_update_fields failed result fresh.now txn) db.payments;
        },
      )
  paid_for :
      (r : CallbackResult) (txn : PaymentTransaction) (result : PaymentResult) (pkg : AdPackage)
      (db' : Db)
      → r.success ≡ true
      → r.already_confirmed ≡ false
      → is_paid ≡ true
      → lookup ref db.payments ≡ some txn
      → is_pending txn.status ≡ true
      → lookup txn.package_id db.packages ≡ some pkg
      → Subscribed
          (get_active_subscription txn.user_id fresh.now db)
          (new_partner_subscription txn.user_id pkg fresh)
          (record db {
            payments = insert ref (payment_update_fields success result fresh.now txn) db.payments;
          })
          (some db')
      → Outcome ref is_paid fresh db (r, db')

success-settled : (s : PaymentStatus) → is_success s ≡ true → is_pending s ≡ false
success-settled pending h = cc
success-settled success h = refl
success-settled failed h = cc
success-settled cancelled h = cc

module _ (ref : ℕ) (fresh : Fresh) (txn : PaymentTransaction) (gateway_result : PaymentResult)
    (result : CallbackResult) (db : Db) (found : lookup ref db.payments ≡ some txn)
    (plain : result.success ≡ false) (first : result.already_confirmed ≡ false) where
  marked-Outcome :
      (r : CallbackResult) (o : Option (Dict PaymentTransaction))
      → r.success ≡ false
      → Updated ref failed gateway_result fresh.now db.payments o
      → Outcome ref false fresh db (r, (marked db o).1)
  marked-Outcome r _ e (untouched settled) = refused r e
  marked-Outcome r _ e (moved old at waits) = declined r old gateway_result e refl at waits

  mark_failed-Outcome :
      (r : CallbackResult)
      → r.success ≡ false
      → Outcome ref false fresh db (r, (mark_failed ref gateway_result fresh.now db).1)
  unfolding mark_failed
  mark_failed-Outcome r e =
      marked-Outcome r _ e (update_pending-Updated ref failed gateway_result fresh.now db.payments)

  completed-Outcome :
      (pkg : AdPackage) (o : Option (Bool × Db))
      → lookup txn.package_id db.packages ≡ some pkg
      → Completed ref gateway_result
          (get_active_subscription txn.user_id fresh.now db)
          (new_partner_subscription txn.user_id pkg fresh)
          fresh.now
          db
          o
      → Outcome ref true fresh db (completed result db o)
  completed-Outcome pkg _ in_table undone = refused _ plain
  completed-Outcome pkg _ in_table (handled_before settled) =
      repeated _ txn refl refl found (settled txn found)
  completed-Outcome pkg _ in_table (transitioned old db' at waits s) =
      let same : old ≡ txn = ground (arith, at, found) in
      paid_for _ txn gateway_result pkg db' refl first refl found
        (subst (λ t. is_pending t.status ≡ true) same waits) in_table
        (subst
          (λ t.
            Subscribed (get_active_subscription txn.user_id fresh.now db)
              (new_partner_subscription txn.user_id pkg fresh)
              (record db {
                payments =
                    insert ref (payment_update_fields success gateway_result fresh.now t)
                      db.payments;
              })
              (some db'))
          same s)

  attempt-Completed :
      (fails : Bool) (pkg : AdPackage) (o : Option (Bool × Db))
      → Completed ref gateway_result
          (get_active_subscription txn.user_id fresh.now db)
          (new_partner_subscription txn.user_id pkg fresh)
          fresh.now
          db
          o
      → Completed ref gateway_result
          (get_active_subscription txn.user_id fresh.now db)
          (new_partner_subscription txn.user_id pkg fresh)
          fresh.now
          db
          (attempt fails o)
  attempt-Completed true pkg o c = undone
  attempt-Completed false pkg o c = c

  activate-Outcome :
      (faults : Faults)
      → txn.txn_ref ≡ ref
      → Outcome ref true fresh db (activate faults fresh txn gateway_result result db)
  unfolding activate get_package_by_id
  activate-Outcome faults refs = elim (Bool-cases faults.package_row) [
    | inl broken ↦ rw (broken, activate) (refused _ plain)
    | inr works ↦ elim (Option-cases (lookup txn.package_id db.packages)) [
      | inl missing ↦ rw (works, missing, activate) (refused _ plain)
      | inr (pkg, at) ↦ elim (Bool-cases faults.current) [
        | inl broken ↦ rw (works, at, broken, activate) (refused _ plain)
        | inr known ↦
            rw (works, at, known, refs, activate)
              (completed-Outcome pkg _ at (
                attempt-Completed faults.write pkg _ (
                  complete_payment-Completed ref gateway_result
                    (get_active_subscription txn.user_id fresh.now db)
                    (new_partner_subscription txn.user_id pkg fresh) fresh.role_row_id fresh.now
                    db)))
      ]
    ]
  ]

  pub settle-Outcome :
      (faults : Faults) (is_paid : Bool)
      → txn.txn_ref ≡ ref
      → Outcome ref is_paid fresh db (settle faults fresh is_paid txn gateway_result result db)
  unfolding settle
  settle-Outcome faults is_paid refs = elim (Bool-cases (is_success txn.status)) [
    | inl before ↦
        rw (before, settle) (repeated _ txn refl refl found (success-settled txn.status before))
    | inr open_yet ↦ rw (open_yet, settle) (by_payment faults is_paid refs)
  ]
    where
      by_payment :
          (faults : Faults) (is_paid : Bool)
          → txn.txn_ref ≡ ref
          → Outcome ref is_paid fresh db (
              if is_paid
              then activate faults fresh txn gateway_result result db
              else if faults.write
              then (internal_error update_failed result, db)
              else (
                record result { message = not_paid },
                (mark_failed txn.txn_ref gateway_result fresh.now db).1,
              ))
      by_payment faults true refs = activate-Outcome faults refs
      by_payment faults false refs = elim (Bool-cases faults.write) [
        | inl broken ↦ rw broken (refused _ plain)
        | inr works ↦ rw (works, refs) (mark_failed-Outcome _ plain)
      ]
