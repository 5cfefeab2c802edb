-- ===== src/Payment/Genuine.antt =====
-- services/payment.service.go and services/momo.service.go: the checks of a callback.
use link_up_server.Base.{
  ◌*◌, ◌%◌, ◌≡◌, ◌⊎◌, inl, inr, refl, true, false, some, lookup, Bool-cases, Option-cases,
}
use link_up_server.Text.{codes, text_eq}
use link_up_server.Payment.Transaction.{PaymentTransaction}
use link_up_server.Payment.Package.{Db}
use link_up_server.Payment.Numbers.{two_64}
use link_up_server.Payment.Query.{Params, Values, param, vnpay_params_from_values}
use link_up_server.Payment.Config.{
  Env, CallbackResult, Faults, new_result, vnpay_config_from_env, vnpay_enabled,
  momo_config_from_env, momo_enabled,
}
use link_up_server.Payment.Settling.{Fresh}
use link_up_server.Payment.Vnpay.{
  Library, text_id, is_amount, vnpay_signed, handle_vnpay, process_vnpay_callback,
}
use link_up_server.Payment.Momo.{
  is_momo, is_other_request, momo_signed, handle_momo, process_momo_callback,
}

-- A callback of VNPay that is signed, for this merchant, and for the amount of a known transaction.
pub record VnpayGenuine (lib : Library) (env : Env) (values : Values) (db : Db)
    (txn : PaymentTransaction) : Type 0 where
  pub enabled : vnpay_enabled (vnpay_config_from_env env) ≡ true
  pub signed : vnpay_signed lib (vnpay_config_from_env env) values ≡ true
  pub merchant :
      text_eq
        (param (codes "vnp_TmnCode") (vnpay_params_from_values values))
        (vnpay_config_from_env env).tmn_code
      ≡ true
  pub known :
      lookup (text_id (param (codes "vnp_TxnRef") (vnpay_params_from_values values))) db.payments
      ≡ some txn
  pub amount :
      is_amount
        (param (codes "vnp_Amount") (vnpay_params_from_values values))
        ((txn.amount * 100) % two_64)
      ≡ true

-- The same for MoMo, and that the transaction is one of MoMo, with this request.
pub record MomoGenuine (lib : Library) (env : Env) (values : Params) (db : Db)
    (txn : PaymentTransaction) : Type 0 where
  pub enabled : momo_enabled (momo_config_from_env env) ≡ true
  pub signed : momo_signed lib (momo_config_from_env env) values ≡ true
  pub merchant :
      text_eq (param (codes "partnerCode") values) (momo_config_from_env env).partner_code ≡ true
  pub known : lookup (text_id (param (codes "orderId") values)) db.payments ≡ some txn
  pub ours : is_momo txn.gateway ≡ true
  pub request : is_other_request txn values ≡ false
  pub amount : is_amount (param (codes "amount") values) txn.amount ≡ true

-- No success is reported, and the tables are as before.
abbrev pub Rejected : Db → CallbackResult × Db → Type 0
Rejected db o = (o.0.success ≡ false) × (o.1 ≡ db)

handle_vnpay-checks :
    (faults : Faults) (fresh : Fresh) (params : Params) (result : CallbackResult) (db : Db)
    → result.success ≡ false
    → ((txn : PaymentTransaction) × (lookup (text_id result.txn_ref) db.payments ≡ some txn)
        × (is_amount (param (codes "vnp_Amount") params) ((txn.amount * 100) % two_64) ≡ true))
      ⊎ Rejected db (handle_vnpay faults fresh params result db)
unfolding handle_vnpay
handle_vnpay-checks faults fresh params result db plain = elim (Bool-cases faults.find) [
  | inl broken ↦ inr (rw (broken, handle_vnpay) (plain, refl))
  | inr works ↦ elim (Option-cases (lookup (text_id result.txn_ref) db.payments)) [
    | inl missing ↦ inr (rw (works, missing, handle_vnpay) (plain, refl))
    | inr (txn, known) ↦
        elim (Bool-cases
          (is_amount (param (codes "vnp_Amount") params) ((txn.amount * 100) % two_64))) [
            | inl amount ↦ inl (txn, known, amount)
            | inr wrong ↦ inr (rw (works, known, wrong, handle_vnpay) (plain, refl))
          ]
  ]
]

handle_momo-checks :
    (faults : Faults) (fresh : Fresh) (values : Params) (result : CallbackResult) (db : Db)
    → result.success ≡ false
    → ((txn : PaymentTransaction) × (lookup (text_id result.txn_ref) db.payments ≡ some txn)
        × (is_momo txn.gateway ≡ true)
        × (is_other_request txn values ≡ false)
        × (is_amount (param (codes "amount") values) txn.amount ≡ true))
      ⊎ Rejected db (handle_momo faults fresh values result db)
unfolding handle_momo
handle_momo-checks faults fresh values result db plain = elim (Bool-cases faults.find) [
  | inl broken ↦ inr (rw (broken, handle_momo) (plain, refl))
  | inr works ↦ elim (Option-cases (lookup (text_id result.txn_ref) db.payments)) [
    | inl missing ↦ inr (rw (works, missing, handle_momo) (plain, refl))
    | inr (txn, known) ↦ elim (Bool-cases (is_momo txn.gateway)) [
      | inr other ↦ inr (rw (works, known, other, handle_momo) (plain, refl))
      | inl ours ↦ elim (Bool-cases (is_other_request txn values)) [
        | inl mixed ↦ inr (rw (works, known, ours, mixed, handle_momo) (plain, refl))
        | inr request ↦ elim (Bool-cases (is_amount (param (codes "amount") values) txn.amount)) [
          | inl amount ↦ inl (txn, known, ours, request, amount)
          | inr wrong ↦ inr (rw (works, known, ours, request, wrong, handle_momo) (plain, refl))
        ]
      ]
    ]
  ]
]

vnpay-Rejected :
    (lib : Library) (env : Env) (faults : Faults) (fresh : Fresh) (values : Values) (db : Db)
    → ((txn : PaymentTransaction) × VnpayGenuine lib env values db txn)
      ⊎ Rejected db (process_vnpay_callback lib env faults fresh values db)
unfolding process_vnpay_callback
vnpay-Rejected lib env faults fresh values db =
    let params = vnpay_params_from_values values in
    let result : CallbackResult =
      new_result (param (codes "vnp_TxnRef") params) (param (codes "vnp_ResponseCode") params) in
    let cfg = vnpay_config_from_env env in
    elim (Bool-cases (vnpay_enabled cfg)) [
      | inr missing ↦ inr (rw (missing, process_vnpay_callback) (refl, refl))
      | inl enabled ↦ elim (Bool-cases (vnpay_signed lib cfg values)) [
        | inr forged ↦ inr (rw (enabled, forged, process_vnpay_callback) (refl, refl))
        | inl signed ↦
            elim (Bool-cases (text_eq (param (codes "vnp_TmnCode") params) cfg.tmn_code)) [
              | inr other ↦ inr (rw (enabled, signed, other, process_vnpay_callback) (refl, refl))
              | inl merchant ↦
                  elim (handle_vnpay-checks faults fresh params (record result { valid = true }) db
                    refl) [
                      | inr rejected ↦
                          inr (rw (enabled, signed, merchant, process_vnpay_callback) rejected)
                      | inl (txn, known, amount) ↦ inl (
                        txn,
                        record {
                          enabled = enabled;
                          signed = signed;
                          merchant = merchant;
                          known = known;
                          amount = amount;
                        },
                      )
                    ]
            ]
      ]
    ]

momo-Rejected :
    (lib : Library) (env : Env) (faults : Faults) (fresh : Fresh) (values : Params) (db : Db)
    → ((txn : PaymentTransaction) × MomoGenuine lib env values db txn)
      ⊎ Rejected db (process_momo_callback lib env faults fresh values db)
unfolding process_momo_callback
momo-Rejected lib env faults fresh values db =
    let result : CallbackResult =
      new_result (param (codes "orderId") values) (param (codes "resultCode") values) in
    let cfg = momo_config_from_env env in
    elim (Bool-cases (momo_enabled cfg)) [
      | inr missing ↦ inr (rw (missing, process_momo_callback) (refl, refl))
      | inl enabled ↦ elim (Bool-cases (momo_signed lib cfg values)) [
        | inr forged ↦ inr (rw (enabled, forged, process_momo_callback) (refl, refl))
        | inl signed ↦
            elim (Bool-cases (text_eq (param (codes "partnerCode") values) cfg.partner_code)) [
              | inr other ↦ inr (rw (enabled, signed, other, process_momo_callback) (refl, refl))
              | inl merchant ↦
                  elim (handle_momo-checks faults fresh values (record result { valid = true }) db
                    refl) [
                      | inr rejected ↦
                          inr (rw (enabled, signed, merchant, process_momo_callback) rejected)
                      | inl (txn, known, ours, request, amount) ↦ inl (
                        txn,
                        record {
                          enabled = enabled;
                          signed = signed;
                          merchant = merchant;
                          known = known;
                          ours = ours;
                          request = request;
                          amount = amount;
                        },
                      )
                    ]
            ]
      ]
    ]

-- A callback of VNPay, whatever the tables are and whatever calls fail, is signed with our secret, for our merchant and for the
-- amount of a known transaction, or it reports no success and leaves every table as it is; and so is a callback of MoMo, which must
-- also be for a transaction of MoMo and for its request.
pub callbacks-Genuine :
    (lib : Library) (env : Env) (faults : Faults) (fresh : Fresh) (values : Values)
    (params : Params) (db : Db)
    → (((txn : PaymentTransaction) × VnpayGenuine lib env values db txn)
        ⊎ Rejected db (process_vnpay_callback lib env faults fresh values db))
      × (((txn : PaymentTransaction) × MomoGenuine lib env params db txn)
          ⊎ Rejected db (process_momo_callback lib env faults fresh params db))
callbacks-Genuine lib env faults fresh values params db =
    (vnpay-Rejected lib env faults fresh values db, momo-Rejected lib env faults fresh params db)
