-- ===== src/Payment/Creation.antt =====
-- services/payment.service.go and services/momo.service.go: the tables after the creation of a
-- payment, by cases.
use link_up_server.Base.{ℕ, ◌≡◌, inl, inr, Bool, some, Bool-cases, Option-cases}
use link_up_server.Text.{Text}
use link_up_server.Payment.Transaction.{PaymentTransaction, PaymentResult}
use link_up_server.Payment.Package.{Db, AdPackage}
use link_up_server.Payment.Config.{
  Env, Faults, momo_config_from_env, momo_enabled, vnpay_config_from_env, vnpay_enabled,
}
use link_up_server.Payment.Settling.{get_package_by_id}
use link_up_server.Payment.Repository.{create_payment, mark_failed}
use link_up_server.Payment.Vnpay.{
  Library, vnpay_transaction, check_package, text_id, create_vnpay_payment,
}
use link_up_server.Payment.Momo.{
  MomoReply, momo_transaction, momo_failure, request_momo, create_momo_payment, failed_result,
}

-- What holds of the tables before, and after a new transaction, holds after the operation.
module _ {ℓ} (db : Db) (P : Db → Type ℓ) where
  pub create_vnpay_payment-cases :
      (lib : Library) (env : Env) (faults : Faults) (now : ℕ) (ref : Text) (user id : ℕ) (ip : Text)
      → P db
      → ((txn : PaymentTransaction) (db' : Db) → create_payment txn db ≡ some db' → P db')
      → P (create_vnpay_payment lib env faults now ref user id ip db).1
  unfolding create_vnpay_payment
  create_vnpay_payment-cases lib env faults now ref user id ip old new =
      elim (Bool-cases (vnpay_enabled (vnpay_config_from_env env))) [
        | inr missing ↦ rw (missing, create_vnpay_payment) old
        | inl enabled ↦ elim (Option-cases (get_package_by_id faults id db)) [
          | inl unknown ↦ rw (enabled, unknown, create_vnpay_payment) old
          | inr (pkg, at) ↦ elim (Option-cases (check_package faults user now pkg db)) [
            | inr (e, bad) ↦ rw (enabled, at, bad, create_vnpay_payment) old
            | inl good ↦ elim (Bool-cases faults.write) [
              | inl broken ↦ rw (enabled, at, good, broken, create_vnpay_payment) old
              | inr works ↦
                  let txn = vnpay_transaction user pkg ref now in
                  elim (Option-cases (create_payment txn db)) [
                    | inl taken ↦ rw (enabled, at, good, works, taken, create_vnpay_payment) old
                    | inr (db', e) ↦
                        rw (enabled, at, good, works, e, create_vnpay_payment) (new txn db' e)
                  ]
            ]
          ]
        ]
      ]

  request_momo-cases :
      (reply : MomoReply) (fails : Bool) (pkg : AdPackage) (order : Text) (now : ℕ) (db' : Db)
      → P db'
      → ((ref : ℕ) (result : PaymentResult) → P (mark_failed ref result now db').1)
      → P (request_momo reply fails pkg order now db').1
  unfolding request_momo
  request_momo-cases reply fails pkg order now db' same marked =
      elim (Option-cases (momo_failure reply)) [
        | inl fine ↦ rw (fine, request_momo) same
        | inr (code, bad) ↦ elim (Bool-cases fails) [
          | inl broken ↦ rw (bad, broken, request_momo) same
          | inr works ↦ rw (bad, works, request_momo) (marked (text_id order) (failed_result code))
        ]
      ]

  pub create_momo_payment-cases :
      (env : Env) (faults : Faults) (reply : MomoReply) (fails : Bool) (now : ℕ)
      (order request : Text) (user id : ℕ)
      → P db
      → ((txn : PaymentTransaction) (db' : Db) → create_payment txn db ≡ some db' → P db')
      → ((txn : PaymentTransaction) (db' : Db) (ref : ℕ) (result : PaymentResult)
          → create_payment txn db ≡ some db'
          → P (mark_failed ref result now db').1)
      → P (create_momo_payment env faults reply fails now order request user id db).1
  unfolding create_momo_payment
  create_momo_payment-cases env faults reply fails now order request user id old new marked =
      elim (Bool-cases (momo_enabled (momo_config_from_env env))) [
        | inr missing ↦ rw (missing, create_momo_payment) old
        | inl enabled ↦ elim (Option-cases (get_package_by_id faults id db)) [
          | inl unknown ↦ rw (enabled, unknown, create_momo_payment) old
          | inr (pkg, at) ↦ elim (Option-cases (check_package faults user now pkg db)) [
            | inr (e, bad) ↦ rw (enabled, at, bad, create_momo_payment) old
            | inl good ↦ elim (Bool-cases faults.write) [
              | inl broken ↦ rw (enabled, at, good, broken, create_momo_payment) old
              | inr works ↦
                  let txn = momo_transaction user pkg order request now in
                  elim (Option-cases (create_payment txn db)) [
                    | inl taken ↦ rw (enabled, at, good, works, taken, create_momo_payment) old
                    | inr (db', e) ↦
                        rw (enabled, at, good, works, e, create_momo_payment)
                          (request_momo-cases reply fails pkg order now db' (new txn db' e)
                            (λ ref result. marked txn db' ref result e))
                  ]
            ]
          ]
        ]
      ]
