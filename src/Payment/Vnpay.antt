-- ===== src/Payment/Vnpay.antt =====
-- services/payment.service.go: payments by VNPay. The HMAC, the text of a time and VNPayClientIP
-- are parameters, and so are the texts of new identifiers. A text stands for an identifier of a
-- row as its number.
use link_up_server.Base.{
  ℕ, suc, ◌+◌, ◌*◌, ◌%◌, Bool, true, false, not, ◌&&◌, ◌||◌, Option, none, some, [], ◌∷◌, ◌++◌,
  if◌then◌else◌, ◌==◌,
}
use link_up_server.Text.{Text, codes, text_eq}
use link_up_server.Payment.Transaction.{PaymentTransaction, PaymentResult, pending, vnpay}
use link_up_server.Payment.Package.{AdPackage, Db, get_active_subscription}
use link_up_server.Payment.Repository.{create_payment, find_by_txn_ref}
use link_up_server.Payment.Numbers.{two_64, rounded, format_int, parse_int}
use link_up_server.Payment.Query.{
  Params, Values, param, get_value, vnpay_params_from_values, vnpay_params_to_query, vnpay_sign,
  vnpay_verify,
}
use link_up_server.Payment.Config.{
  Env, VnpayConfig, CallbackResult, Faults, vnpay_config_from_env, vnpay_enabled, new_result,
  not_configured, bad_signature, other_merchant, lookup_failed, unknown_transaction, wrong_amount,
}
use link_up_server.Payment.Settling.{Fresh, get_package_by_id, internal_error, settle}

-- What the services take from libraries.
pub record Library : Type 0 where
  pub hmac_sha512 : Text → Text → Text
  pub hmac_sha256 : Text → Text → Text
  pub format_time : ℕ → Text

-- The number of a text.
unfoldable pub text_id : Text → ℕ
text_id [] = 0
text_id (c ∷ s) = suc c + 0x110001 * text_id s

pub data PaymentError : Type 0 where
  payment_not_configured package_not_found payment_invalid_amount query_failed
        payment_already_active payment_create_failed :
      PaymentError

-- dto.CreatePaymentResponse
pub record CreatePaymentResponse : Type 0 where
  pub payment_url : Text
  pub response_ref : Text
  pub response_amount : ℕ
  pub response_expires_at : ℕ

pub data Created : Type 0 where
  payment_created : CreatePaymentResponse → Created
  payment_error : PaymentError → Created

-- `activeSub != nil && activeSub.PackageID == pkg.ID`
unfoldable pub already_active : ℕ → ℕ → ℕ → Db → Bool
already_active user now id db = elim (get_active_subscription user now db) [
  | none ↦ false
  | some (i, sub) ↦ sub.package_id == id
]

abbrev pub payment_ttl : ℕ
payment_ttl = 15 * 60

abbrev pub order_info : AdPackage → Text
order_info pkg = codes "Thanh toan goi quang cao " ++ pkg.name

abbrev pub vnpay_params : Library → VnpayConfig → AdPackage → Text → Text → ℕ → Params
vnpay_params lib cfg pkg ref client_ip now =
    (codes "vnp_Version", codes "2.1.0")
    ∷ (codes "vnp_Command", codes "pay")
    ∷ (codes "vnp_TmnCode", cfg.tmn_code)
    ∷ (codes "vnp_Locale", codes "vn")
    ∷ (codes "vnp_CurrCode", codes "VND")
    ∷ (codes "vnp_TxnRef", ref)
    ∷ (codes "vnp_OrderInfo", order_info pkg)
    ∷ (codes "vnp_OrderType", codes "other")
    ∷ (codes "vnp_Amount", format_int ((rounded pkg.price_monthly * 100) % two_64))
    ∷ (codes "vnp_ReturnUrl", cfg.return_url)
    ∷ (codes "vnp_IpAddr", client_ip)
    ∷ (codes "vnp_CreateDate", lib.format_time now)
    ∷ (codes "vnp_ExpireDate", lib.format_time (now + payment_ttl))
    ∷ []

abbrev pub vnpay_transaction : ℕ → AdPackage → Text → ℕ → PaymentTransaction
vnpay_transaction user pkg ref now = record {
  txn_ref = text_id ref;
  request_id = [];
  user_id = user;
  package_id = pkg.id;
  amount = rounded pkg.price_monthly;
  status = pending;
  gateway = vnpay;
  response_code = [];
  transaction_no = [];
  bank_code = [];
  pay_date = [];
  order_info = order_info pkg;
  paid_at = none;
  created_at = now;
  updated_at = now;
}

-- The URL, with the signature as a further parameter.
abbrev pub vnpay_response :
    Library → VnpayConfig → AdPackage → Text → Text → ℕ → CreatePaymentResponse
vnpay_response lib cfg pkg ref client_ip now =
    let params = vnpay_params lib cfg pkg ref client_ip now in
    let hash = vnpay_sign lib.hmac_sha512 params cfg.hash_secret in
    record {
      payment_url =
          cfg.payment_url ++ b'?' ∷ vnpay_params_to_query ((codes "vnp_SecureHash", hash) ∷ params);
      response_ref = ref;
      response_amount = rounded pkg.price_monthly;
      response_expires_at = now + payment_ttl;
    }

-- The checks that both gateways make before a transaction is created.
unfoldable pub check_package : Faults → ℕ → ℕ → AdPackage → Db → Option PaymentError
check_package faults user now pkg db =
    if pkg.price_monthly == 0
    then some payment_invalid_amount
    else if faults.current
    then some query_failed
    else if already_active user now pkg.id db
    then some payment_already_active
    else none

-- CreateVNPayPayment
unfoldable pub create_vnpay_payment :
    Library → Env → Faults → ℕ → Text → ℕ → ℕ → Text → Db → Created × Db
create_vnpay_payment lib env faults now ref user id client_ip db =
    let cfg = vnpay_config_from_env env in
    if not (vnpay_enabled cfg)
    then (payment_error payment_not_configured, db)
    else elim (get_package_by_id faults id db) [
      | none ↦ (payment_error package_not_found, db)
      | some pkg ↦ elim (check_package faults user now pkg db) [
        | some e ↦ (payment_error e, db)
        | none ↦
            if faults.write
            then (payment_error payment_create_failed, db)
            else elim (create_payment (vnpay_transaction user pkg ref now) db) [
              | none ↦ (payment_error payment_create_failed, db)
              | some db' ↦ (payment_created (vnpay_response lib cfg pkg ref client_ip now), db')
            ]
      ]
    ]

-- The `PaymentResult` of a callback.
abbrev pub vnpay_result : Params → ℕ → PaymentResult
vnpay_result params now = record {
  response_code = param (codes "vnp_ResponseCode") params;
  transaction_no = param (codes "vnp_TransactionNo") params;
  bank_code = param (codes "vnp_BankCode") params;
  pay_date = param (codes "vnp_PayDate") params;
  paid_at = now;
}

unfoldable pub vnpay_paid : Params → Bool
vnpay_paid params =
    text_eq (param (codes "vnp_ResponseCode") params) (codes "00")
    && (text_eq (param (codes "vnp_TransactionStatus") params) []
        || text_eq (param (codes "vnp_TransactionStatus") params) (codes "00"))

-- `err != nil || gatewayAmount != expected`, negated.
unfoldable pub is_amount : Text → ℕ → Bool
is_amount s expected = elim (parse_int s) [ none ↦ false | some n ↦ n == expected ]

-- ProcessVNPayCallback from the query for the transaction on.
unfoldable pub handle_vnpay : Faults → Fresh → Params → CallbackResult → Db → CallbackResult × Db
handle_vnpay faults fresh params result db =
    if faults.find
    then (internal_error lookup_failed result, db)
    else elim (find_by_txn_ref (text_id result.txn_ref) db) [
      | none ↦ (record result { not_found = true; message = unknown_transaction }, db)
      | some txn ↦
          if not (is_amount (param (codes "vnp_Amount") params) ((txn.amount * 100) % two_64))
          then (record result { amount_mismatch = true; message = wrong_amount }, db)
          else settle faults fresh (vnpay_paid params) txn (vnpay_result params fresh.now) result db
    ]

-- The signature and the merchant of a callback.
unfoldable pub vnpay_signed : Library → VnpayConfig → Values → Bool
vnpay_signed lib cfg values =
    vnpay_verify lib.hmac_sha512 (vnpay_params_from_values values) cfg.hash_secret
      (get_value (codes "vnp_SecureHash") values)

-- ProcessVNPayCallback
unfoldable pub process_vnpay_callback :
    Library → Env → Faults → Fresh → Values → Db → CallbackResult × Db
process_vnpay_callback lib env faults fresh values db =
    let params = vnpay_params_from_values values in
    let result =
      new_result (param (codes "vnp_TxnRef") params) (param (codes "vnp_ResponseCode") params) in
    let cfg = vnpay_config_from_env env in
    if not (vnpay_enabled cfg)
    then (record result { message = not_configured }, db)
    else if not (vnpay_signed lib cfg values)
    then (record result { message = bad_signature }, db)
    else if not (text_eq (param (codes "vnp_TmnCode") params) cfg.tmn_code)
    then (record result { message = other_merchant }, db)
    else handle_vnpay faults fresh params (record result { valid = true }) db
