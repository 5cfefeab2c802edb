-- ===== src/Payment/Momo.antt =====
-- services/momo.service.go and utils/momo.go: payments by MoMo. What the HTTP call of the gateway
-- gives is a parameter. The values of a callback are its text fields.
use link_up_server.Base.{
  ℕ, ◌+◌, Bool, true, false, not, ◌&&◌, ◌||◌, Option, none, some, [], ◌++◌, if◌then◌else◌, ◌==◌,
}
use link_up_server.Text.{Text, codes, text_eq, trim_space, to_lower}
use link_up_server.Payment.Transaction.{
  PaymentTransaction, PaymentResult, Gateway, pending, vnpay, momo,
}
use link_up_server.Payment.Package.{AdPackage, Db}
use link_up_server.Payment.Repository.{create_payment, find_by_txn_ref, mark_failed}
use link_up_server.Payment.Numbers.{rounded, format_int}
use link_up_server.Payment.Query.{Params, param}
use link_up_server.Payment.Config.{
  Env, MomoConfig, CallbackResult, Faults, momo_config_from_env, momo_enabled, new_result, is_set,
  not_configured, bad_signature, other_merchant, lookup_failed, unknown_transaction, other_request,
  wrong_amount,
}
use link_up_server.Payment.Settling.{Fresh, get_package_by_id, internal_error, settle}
use link_up_server.Payment.Vnpay.{
  Library, Created, text_id, order_info, payment_ttl, check_package, is_amount, payment_created,
  payment_error, payment_not_configured, package_not_found, payment_create_failed,
}

-- The answer of the gateway: the fields `resultCode` and `payUrl`, or where the call failed.
pub data MomoReply : Type 0 where
  sign_failed request_failed http_failed read_failed parse_failed : MomoReply
  replied : ℕ → Text → MomoReply

abbrev pub failed_result : Text → PaymentResult
failed_result code = record {
  response_code = code;
  transaction_no = [];
  bank_code = [];
  pay_date = [];
  paid_at = 0;
}

-- The code that markFailed stores; `none` when the gateway gives a URL.
unfoldable pub momo_failure : MomoReply → Option Text
momo_failure sign_failed = some (codes "SIGN_ERROR")
momo_failure request_failed = some (codes "REQUEST_ERROR")
momo_failure http_failed = some (codes "HTTP_ERROR")
momo_failure read_failed = some (codes "READ_ERROR")
momo_failure parse_failed = some (codes "PARSE_ERROR")
momo_failure (replied result_code pay_url) =
    if not (result_code == 0) || not (is_set pay_url) then some (format_int result_code) else none

abbrev pub momo_url : MomoReply → Text
momo_url (replied result_code pay_url) = pay_url
momo_url _ = []

abbrev pub momo_transaction : ℕ → AdPackage → Text → Text → ℕ → PaymentTransaction
momo_transaction user pkg order request now = record {
  txn_ref = text_id order;
  request_id = request;
  user_id = user;
  package_id = pkg.id;
  amount = rounded pkg.price_monthly;
  status = pending;
  gateway = momo;
  response_code = [];
  transaction_no = [];
  bank_code = [];
  pay_date = [];
  order_info = order_info pkg;
  paid_at = none;
  created_at = now;
  updated_at = now;
}

-- markFailed, whose errors are logged; the second flag of the faults is that of this call.
abbrev pub mark_failed_logged : Bool → Text → Text → ℕ → Db → Db
mark_failed_logged fails order code now db =
    if fails then db else (mark_failed (text_id order) (failed_result code) now db).1

-- CreateMoMoPayment from the request to the gateway on.
unfoldable pub request_momo : MomoReply → Bool → AdPackage → Text → ℕ → Db → Created × Db
request_momo reply mark_fails pkg order now db = elim (momo_failure reply) [
  | some code ↦
      (payment_error payment_create_failed, mark_failed_logged mark_fails order code now db)
  | none ↦ (
    payment_created (record {
      payment_url = momo_url reply;
      response_ref = order;
      response_amount = rounded pkg.price_monthly;
      response_expires_at = now + payment_ttl;
    }),
    db,
  )
]

-- CreateMoMoPayment
unfoldable pub create_momo_payment :
    Env → Faults → MomoReply → Bool → ℕ → Text → Text → ℕ → ℕ → Db → Created × Db
create_momo_payment env faults reply mark_fails now order request user id db =
    if not (momo_enabled (momo_config_from_env env))
    then (payment_error payment_not_configured, db)
    else elim (get_package_by_id faults id db) [
      | none ↦ (payment_error package_not_found, db)
      | some pkg ↦ elim (check_package faults user now pkg db) [
        | some e ↦ (payment_error e, db)
        | none ↦
            if faults.write
            then (payment_error payment_create_failed, db)
            else elim (create_payment (momo_transaction user pkg order request now) db) [
              | none ↦ (payment_error payment_create_failed, db)
              | some db' ↦ request_momo reply mark_fails pkg order now db'
            ]
      ]
    ]

-- MoMoCallbackRawData
unfoldable pub momo_callback_raw_data : Text → Params → Text
momo_callback_raw_data access_key values =
    codes "accessKey="
    ++ access_key
    ++ codes "&amount="
    ++ param (codes "amount") values
    ++ codes "&extraData="
    ++ param (codes "extraData") values
    ++ codes "&message="
    ++ param (codes "message") values
    ++ codes "&orderId="
    ++ param (codes "orderId") values
    ++ codes "&orderInfo="
    ++ param (codes "orderInfo") values
    ++ codes "&orderType="
    ++ param (codes "orderType") values
    ++ codes "&partnerCode="
    ++ param (codes "partnerCode") values
    ++ codes "&payType="
    ++ param (codes "payType") values
    ++ codes "&requestId="
    ++ param (codes "requestId") values
    ++ codes "&responseTime="
    ++ param (codes "responseTime") values
    ++ codes "&resultCode="
    ++ param (codes "resultCode") values
    ++ codes "&transId="
    ++ param (codes "transId") values

unfoldable pub momo_verify : (Text → Text → Text) → Text → Text → Text → Bool
momo_verify hmac raw_data secret signature =
    if text_eq signature []
    then false
    else text_eq (hmac secret raw_data) (to_lower (trim_space signature))

unfoldable pub momo_signed : Library → MomoConfig → Params → Bool
momo_signed lib cfg values =
    momo_verify lib.hmac_sha256 (momo_callback_raw_data cfg.access_key values) cfg.secret_key
      (param (codes "signature") values)

abbrev pub momo_result : Params → ℕ → PaymentResult
momo_result values now = record {
  response_code = param (codes "resultCode") values;
  transaction_no = param (codes "transId") values;
  bank_code = param (codes "payType") values;
  pay_date = param (codes "responseTime") values;
  paid_at = now;
}

abbrev pub is_momo : Gateway → Bool
is_momo momo = true
is_momo vnpay = false

unfoldable pub momo_paid : Params → Bool
momo_paid values = text_eq (param (codes "resultCode") values) (codes "0")

-- `txn.RequestID != "" && txn.RequestID != values["requestId"]`
abbrev pub is_other_request : PaymentTransaction → Params → Bool
is_other_request txn values =
    is_set txn.request_id && not (text_eq txn.request_id (param (codes "requestId") values))

-- ProcessMoMoCallback from the query for the transaction on.
unfoldable pub handle_momo : Faults → Fresh → Params → CallbackResult → Db → CallbackResult × Db
handle_momo faults fresh values result db =
    if faults.find
    then (internal_error lookup_failed result, db)
    else elim (find_by_txn_ref (text_id result.txn_ref) db) [
      | none ↦ (record result { not_found = true; message = unknown_transaction }, db)
      | some txn ↦
          if not (is_momo txn.gateway)
          then (record result { not_found = true; message = unknown_transaction }, db)
          else if is_other_request txn values
          then (record result { message = other_request }, db)
          else if not (is_amount (param (codes "amount") values) txn.amount)
          then (record result { amount_mismatch = true; message = wrong_amount }, db)
          else settle faults fresh (momo_paid values) txn (momo_result values fresh.now) result db
    ]

-- ProcessMoMoCallback
unfoldable pub process_momo_callback :
    Library → Env → Faults → Fresh → Params → Db → CallbackResult × Db
process_momo_callback lib env faults fresh values db =
    let result = new_result (param (codes "orderId") values) (param (codes "resultCode") values) in
    let cfg = momo_config_from_env env in
    if not (momo_enabled cfg)
    then (record result { message = not_configured }, db)
    else if not (momo_signed lib cfg values)
    then (record result { message = bad_signature }, db)
    else if not (text_eq (param (codes "partnerCode") values) cfg.partner_code)
    then (record result { message = other_merchant }, db)
    else handle_momo faults fresh values (record result { valid = true }) db
