-- ===== src/Payment/Answers.antt =====
-- services/payment.service.go and services/momo.service.go: the callbacks of the two gateways, with
-- the checks that stand before a transaction is settled.
use link_up_server.Base.{◌≡◌, inl, inr, refl, false, lookup, Bool-cases, Option-cases, ◌*◌, ◌%◌}
use link_up_server.Text.{codes, text_eq}
use link_up_server.Payment.Package.{Db}
use link_up_server.Payment.Numbers.{two_64}
use link_up_server.Payment.Query.{Params, Values, param, vnpay_params_from_values}
use link_up_server.Payment.Config.{
  Env, CallbackResult, Faults, vnpay_config_from_env, vnpay_enabled, momo_config_from_env,
  momo_enabled,
}
use link_up_server.Payment.Settling.{Fresh}
use link_up_server.Payment.Callbacks.{RefsMatch, Outcome, refused, settle-Outcome}
use link_up_server.Payment.Vnpay.{
  Library, text_id, is_amount, vnpay_paid, vnpay_result, vnpay_signed, handle_vnpay,
  process_vnpay_callback,
}
use link_up_server.Payment.Momo.{
  is_momo, is_other_request, momo_paid, momo_result, momo_signed, handle_momo,
  process_momo_callback,
}

handle_vnpay-Outcome :
    (faults : Faults) (fresh : Fresh) (params : Params) (result : CallbackResult) (db : Db)
    → RefsMatch db
    → result.success ≡ false
    → result.already_confirmed ≡ false
    → Outcome
        (text_id result.txn_ref)
        (vnpay_paid params)
        fresh
        db
        (handle_vnpay faults fresh params result db)
unfolding handle_vnpay
handle_vnpay-Outcome faults fresh params result db refs plain first =
    elim (Bool-cases faults.find) [
      | inl broken ↦ rw (broken, handle_vnpay) (refused _ plain)
      | inr works ↦
          let ref = text_id result.txn_ref in
          elim (Option-cases (lookup ref db.payments)) [
            | inl missing ↦ rw (works, missing, handle_vnpay) (refused _ plain)
            | inr (txn, found) ↦
                elim (Bool-cases
                  (is_amount (param (codes "vnp_Amount") params) ((txn.amount * 100) % two_64))) [
                    | inr wrong ↦ rw (works, found, wrong, handle_vnpay) (refused _ plain)
                    | inl right ↦
                        rw (works, found, right, handle_vnpay)
                          (settle-Outcome ref fresh txn (vnpay_result params fresh.now) result db
                            found plain first faults (vnpay_paid params) (refs ref txn found))
                  ]
          ]
    ]

handle_momo-Outcome :
    (faults : Faults) (fresh : Fresh) (values : Params) (result : CallbackResult) (db : Db)
    → RefsMatch db
    → result.success ≡ false
    → result.already_confirmed ≡ false
    → Outcome
        (text_id result.txn_ref)
        (momo_paid values)
        fresh
        db
        (handle_momo faults fresh values result db)
unfolding handle_momo
handle_momo-Outcome faults fresh values result db refs plain first = elim (Bool-cases faults.find) [
  | inl broken ↦ rw (broken, handle_momo) (refused _ plain)
  | inr works ↦
      let ref = text_id result.txn_ref in
      elim (Option-cases (lookup ref db.payments)) [
        | inl missing ↦ rw (works, missing, handle_momo) (refused _ plain)
        | inr (txn, found) ↦ elim (Bool-cases (is_momo txn.gateway)) [
          | inr other ↦ rw (works, found, other, handle_momo) (refused _ plain)
          | inl ours ↦ elim (Bool-cases (is_other_request txn values)) [
            | inl mixed ↦ rw (works, found, ours, mixed, handle_momo) (refused _ plain)
            | inr matching ↦
                elim (Bool-cases (is_amount (param (codes "amount") values) txn.amount)) [
                  | inr wrong ↦
                      rw (works, found, ours, matching, wrong, handle_momo) (refused _ plain)
                  | inl right ↦
                      rw (works, found, ours, matching, right, handle_momo)
                        (settle-Outcome ref fresh txn (momo_result values fresh.now) result db found
                          plain first faults (momo_paid values) (refs ref txn found))
                ]
          ]
        ]
      ]
]

-- A callback with a parameter for the reference, and whether it reports a payment.
pub process_vnpay_callback-Outcome :
    (lib : Library) (env : Env) (faults : Faults) (fresh : Fresh) (values : Values) (db : Db)
    → RefsMatch db
    → Outcome
        (text_id (param (codes "vnp_TxnRef") (vnpay_params_from_values values)))
        (vnpay_paid (vnpay_params_from_values values))
        fresh
        db
        (process_vnpay_callback lib env faults fresh values db)
unfolding process_vnpay_callback
process_vnpay_callback-Outcome lib env faults fresh values db refs =
    let params = vnpay_params_from_values values in
    let cfg = vnpay_config_from_env env in
    elim (Bool-cases (vnpay_enabled cfg)) [
      | inr missing ↦ rw (missing, process_vnpay_callback) (refused _ refl)
      | inl enabled ↦ elim (Bool-cases (vnpay_signed lib cfg values)) [
        | inr forged ↦ rw (enabled, forged, process_vnpay_callback) (refused _ refl)
        | inl signed ↦
            elim (Bool-cases (text_eq (param (codes "vnp_TmnCode") params) cfg.tmn_code)) [
              | inr other ↦ rw (enabled, signed, other, process_vnpay_callback) (refused _ refl)
              | inl ours ↦
                  rw (enabled, signed, ours, process_vnpay_callback)
                    (handle_vnpay-Outcome faults fresh params _ db refs refl refl)
            ]
      ]
    ]

pub process_momo_callback-Outcome :
    (lib : Library) (env : Env) (faults : Faults) (fresh : Fresh) (values : Params) (db : Db)
    → RefsMatch db
    → Outcome
        (text_id (param (codes "orderId") values))
        (momo_paid values)
        fresh
        db
        (process_momo_callback lib env faults fresh values db)
unfolding process_momo_callback
process_momo_callback-Outcome lib env faults fresh values db refs =
    let cfg = momo_config_from_env env in
    elim (Bool-cases (momo_enabled cfg)) [
      | inr missing ↦ rw (missing, process_momo_callback) (refused _ refl)
      | inl enabled ↦ elim (Bool-cases (momo_signed lib cfg values)) [
        | inr forged ↦ rw (enabled, forged, process_momo_callback) (refused _ refl)
        | inl signed ↦
            elim (Bool-cases (text_eq (param (codes "partnerCode") values) cfg.partner_code)) [
              | inr other ↦ rw (enabled, signed, other, process_momo_callback) (refused _ refl)
              | inl ours ↦
                  rw (enabled, signed, ours, process_momo_callback)
                    (handle_momo-Outcome faults fresh values _ db refs refl refl)
            ]
      ]
    ]
