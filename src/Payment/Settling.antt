-- ===== src/Payment/Settling.antt =====
-- services/payment.service.go and services/momo.service.go: what the callbacks of both gateways do
-- with a transaction once its amount is checked; services/package.service.go: a new subscription.
use link_up_server.Base.{ℕ, ◌+◌, ◌*◌, Bool, true, false, Option, none, some, if◌then◌else◌, lookup}
use link_up_server.Payment.Transaction.{PaymentTransaction, PaymentResult, is_success}
use link_up_server.Payment.Package.{
  AdPackage, PartnerSubscription, Db, active, get_active_subscription,
}
use link_up_server.Payment.Repository.{complete_payment, mark_failed}
use link_up_server.Payment.Config.{
  CallbackResult, Message, Faults, confirmed_before, update_failed, not_paid, package_missing,
  current_unknown, activation_failed, paid,
}

-- The time of a request, and the ids that it gives to new rows.
pub record Fresh : Type 0 where
  pub now : ℕ
  pub subscription_id : ℕ
  pub role_row_id : ℕ

abbrev pub new_partner_subscription : ℕ → AdPackage → Fresh → PartnerSubscription
new_partner_subscription user pkg fresh = record {
  id = fresh.subscription_id;
  user_id = user;
  package_id = pkg.id;
  slots_used = 0;
  started_at = fresh.now;
  expires_at = fresh.now + pkg.max_duration_days * 86400;
  status = active;
  auto_renew = true;
}

-- GetPackageByID; `none` is an error.
unfoldable pub get_package_by_id : Faults → ℕ → Db → Option AdPackage
get_package_by_id faults id db = if faults.package_row then none else lookup id db.packages

abbrev pub internal_error : Message → CallbackResult → CallbackResult
internal_error message result = record result { internal = true; message = message }

abbrev pub confirmed : CallbackResult → CallbackResult
confirmed result = record result {
  success = true;
  already_confirmed = true;
  message = confirmed_before;
}

abbrev pub attempt {ℓ} : {A : Type ℓ} → Bool → Option A → Option A
attempt fails o = if fails then none else o

-- From CompletePayment on.
abbrev pub completed : CallbackResult → Db → Option (Bool × Db) → CallbackResult × Db
completed result db none = (internal_error activation_failed result, db)
completed result db (some (false, db')) = (confirmed result, db')
completed result db (some (true, db')) = (record result { success = true; message = paid }, db')

-- From the query for the package on.
unfoldable pub activate :
    Faults → Fresh → PaymentTransaction → PaymentResult → CallbackResult → Db → CallbackResult × Db
activate faults fresh txn gateway_result result db =
    elim (get_package_by_id faults txn.package_id db) [
      | none ↦ (internal_error package_missing result, db)
      | some pkg ↦
          if faults.current
          then (internal_error current_unknown result, db)
          else completed result db (
              attempt faults.write (
                complete_payment txn.txn_ref gateway_result
                  (get_active_subscription txn.user_id fresh.now db)
                  (new_partner_subscription txn.user_id pkg fresh) fresh.role_row_id fresh.now db))
    ]

-- From the test on the status of the transaction on; the flag is whether the gateway was paid.
unfoldable pub settle :
    Faults
    → Fresh
    → Bool
    → PaymentTransaction
    → PaymentResult
    → CallbackResult
    → Db
    → CallbackResult × Db
settle faults fresh is_paid txn gateway_result result db =
    if is_success txn.status
    then (confirmed result, db)
    else if is_paid
    then activate faults fresh txn gateway_result result db
    else if faults.write
    then (internal_error update_failed result, db)
    else (
      record result { message = not_paid },
      (mark_failed txn.txn_ref gateway_result fresh.now db).1,
    )
