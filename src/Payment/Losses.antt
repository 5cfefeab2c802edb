-- ===== src/Payment/Losses.antt =====
-- services/payment.service.go, services/package.service.go and repository/package.repository.go:
-- runs in which a subscriber loses.
use link_up_server.Base.{
  ℕ, ◌≡◌, ◌≢◌, refl, sym, subst, true, false, Option, none, some, arith, lookup, insert,
  lookup-insert,
}
use link_up_server.Text.{codes}
use link_up_server.Payment.Transaction.{PaymentTransaction, PaymentResult, is_pending, is_success}
use link_up_server.Payment.Package.{
  AdPackage, Db, PartnerSubscription, is_current, get_active_subscription, subscribe_with_tx,
}
use link_up_server.Payment.Query.{Values, param, vnpay_params_from_values}
use link_up_server.Payment.Config.{Env, CallbackResult, Faults, new_result}
use link_up_server.Payment.Settling.{
  Fresh, get_package_by_id, completed, activate, settle, new_partner_subscription,
}
use link_up_server.Payment.Vnpay.{
  Library, text_id, vnpay_paid, vnpay_result, handle_vnpay, process_vnpay_callback,
}
use link_up_server.Payment.Outcomes.{
  Subscribed, rolled_back, subscribed, subscribe_with_tx-Subscribed,
}
use link_up_server.Payment.Genuine.{VnpayGenuine}
use link_up_server.Payment.Finality.{final-complete_payment}

-- No call of the database fails.
abbrev pub no_faults : Faults
no_faults = record { find = false; package_row = false; current = false; write = false }

activate-final :
    (fresh : Fresh) (txn : PaymentTransaction) (result : PaymentResult) (r : CallbackResult)
    (pkg : AdPackage) (db : Db)
    → lookup txn.txn_ref db.payments ≡ some txn
    → is_pending txn.status ≡ false
    → lookup txn.package_id db.packages ≡ some pkg
    → activate no_faults fresh txn result r db ≡ completed r db (some (false, db))
unfolding activate get_package_by_id
activate-final fresh txn result r pkg db found final at =
    rw
      (
        at,
        final-complete_payment txn.txn_ref result (get_active_subscription txn.user_id fresh.now db)
            (new_partner_subscription txn.user_id pkg fresh) fresh.role_row_id fresh.now db txn
            found final,
        activate,
      )
      refl

-- A genuine callback of VNPay that reports a payment for a transaction that has failed before is answered with success and
-- "already confirmed", while every table stays as it is: the transaction stays failed, and the user has no subscription for
-- the money. The conditions are that no call fails, that the package is known and that the transaction stands under its reference.
pub late_payment :
    (lib : Library) (env : Env) (fresh : Fresh) (values : Values) (db : Db)
    (txn : PaymentTransaction) (pkg : AdPackage)
    → VnpayGenuine lib env values db txn
    → vnpay_paid (vnpay_params_from_values values) ≡ true
    → txn.txn_ref ≡ text_id (param (codes "vnp_TxnRef") (vnpay_params_from_values values))
    → lookup txn.package_id db.packages ≡ some pkg
    → is_pending txn.status ≡ false
    → is_success txn.status ≡ false
    → let o = process_vnpay_callback lib env no_faults fresh values db in
      (o.0.success ≡ true) × (o.0.already_confirmed ≡ true) × (o.1 ≡ db)
unfolding process_vnpay_callback handle_vnpay settle
late_payment lib env fresh values db txn pkg g paid refs at final failed_before =
    let params = vnpay_params_from_values values in
    let result : CallbackResult =
      record (new_result (param (codes "vnp_TxnRef") params)
        (param (codes "vnp_ResponseCode") params)) { valid = true } in
    let kept =
      activate-final fresh txn (vnpay_result params fresh.now) result pkg db
        (subst (λ r. lookup r db.payments ≡ some txn) (sym refs) g.known) final at in
    rw (g.enabled, g.signed, g.merchant, g.known, g.amount, failed_before, paid, kept)
      (refl, refl, refl)

-- A subscription that SubscribePackage or a callback writes when it has read that there is no current one.
written_alone :
    (new : PartnerSubscription) (db db' : Db) (o : Option Db)
    → Subscribed none new db o
    → o ≡ some db'
    → (db'.subscriptions ≡ insert new.id new db.subscriptions)
      × (lookup new.id db.subscriptions ≡ none)
written_alone new db db' _ rolled_back e = cc
written_alone new db db' _ (subscribed uuid rows free role) e = (ground arith, free)

-- Two requests of one user that both read that the user has no current subscription, before either writes, and whose
-- two transactions are then committed one after the other, leave the user with two subscriptions that are both current.
pub subscribe_race :
    (now user uuid uuid' : ℕ) (first second : PartnerSubscription) (db db1 db2 : Db)
    → get_active_subscription user now db ≡ none
    → is_current user now first ≡ true
    → is_current user now second ≡ true
    → subscribe_with_tx (get_active_subscription user now db) first uuid db ≡ some db1
    → subscribe_with_tx (get_active_subscription user now db) second uuid' db1 ≡ some db2
    → (first.id ≢ second.id)
      × (lookup first.id db2.subscriptions ≡ some first)
      × (lookup second.id db2.subscriptions ≡ some second)
subscribe_race now user uuid uuid' first second db db1 db2 nothing cur cur' h k =
    let h' : subscribe_with_tx none first uuid db ≡ some db1 = rw nothing at h in
    let k' : subscribe_with_tx none second uuid' db1 ≡ some db2 = rw nothing at k in
    let (e, free) =
      written_alone first db db1 _ (subscribe_with_tx-Subscribed none first uuid db) h' in
    let (e', free') =
      written_alone second db1 db2 _ (subscribe_with_tx-Subscribed none second uuid' db1) k' in
    let at : lookup first.id db1.subscriptions ≡ some first =
      ground (arith, e, lookup-insert first.id first.id first db.subscriptions) in
    (
      λ same. absurd (ground (arith, at, free')),
      ground (arith, e', at, free', lookup-insert first.id second.id second db1.subscriptions),
      ground (arith, e', lookup-insert second.id second.id second db1.subscriptions),
    )
