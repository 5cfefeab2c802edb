-- ===== src/Payment/Tests.antt =====
-- The theorems on payments at concrete tables.
use link_up_server.Base.{
  ◌≡◌, ◌≢◌, ◌⊎◌, refl, true, false, none, some, [], ◌∷◌, arith, ◌*◌, ◌%◌, lookup, insert,
  create_row, first_row,
}
use link_up_server.Text.{codes, text_eq, trim_space, trim_left, is_space, to_lower, lower}
use link_up_server.Access.Roles.{partner, user_role, contains_role}
use link_up_server.Payment.Transaction.{
  PaymentTransaction, PaymentResult, failed, success, update_pending, payment_update_fields,
}
use link_up_server.Payment.Package.{
  AdPackage, Db, PartnerSubscription, get_active_subscription, subscribe_with_tx, update_user_role,
}
use link_up_server.Payment.Repository.{complete_payment}
use link_up_server.Payment.Numbers.{two_64, format_int, parse_int, parse_digits}
use link_up_server.Payment.Query.{
  Values, param, get_value, vnpay_params_from_values, vnpay_sign, vnpay_verify,
}
use link_up_server.Payment.Config.{Env, VnpayConfig, vnpay_config_from_env, vnpay_enabled}
use link_up_server.Payment.Settling.{Fresh, new_partner_subscription}
use link_up_server.Payment.Service.{process_expired_subscriptions}
use link_up_server.Payment.Vnpay.{
  Library, text_id, is_amount, vnpay_paid, vnpay_params, vnpay_signed, vnpay_transaction,
  process_vnpay_callback,
}
use link_up_server.Payment.Momo.{momo_transaction, process_momo_callback}
use link_up_server.Payment.Machine.{create_vnpay, step, done, next, use_slot}
use link_up_server.Payment.Callbacks.{RefsMatch}
use link_up_server.Payment.Finality.{complete_payment-once}
use link_up_server.Payment.Current.{OneCurrent}
use link_up_server.Payment.History.{History, begin, later, History-OneCurrent}
use link_up_server.Payment.Shop.{Realised, VnpayReported, MomoReported, callbacks-Realised}
use link_up_server.Payment.Genuine.{VnpayGenuine, MomoGenuine, Rejected, callbacks-Genuine}
use link_up_server.Payment.Amounts.{created-is_amount}
use link_up_server.Payment.Losses.{no_faults, late_payment, subscribe_race}
use link_up_server.Payment.Rounds.{NoPartner}
use link_up_server.Payment.Downgrades.{never, process_expired_subscriptions-takes_role}

-- A signature that is the secret.
abbrev lib : Library
lib = record {
  hmac_sha512 = λ secret message. secret;
  hmac_sha256 = λ secret message. secret;
  format_time = λ t. codes "t";
}

abbrev env : Env
env = record {
  vnpay_tmn_code = codes "m";
  vnpay_hash_secret = codes " s ";
  vnpay_payment_url = codes "u";
  vnpay_return_url = codes "r";
  momo_partner_code = [];
  momo_access_key = [];
  momo_secret_key = [];
  momo_endpoint = [];
  momo_redirect_url = [];
  momo_ipn_url = [];
}

-- A month for 10 dong.
abbrev basic : AdPackage
basic = record {
  id = 7;
  name = codes "B";
  price_monthly = 1000;
  max_slots = 5;
  max_duration_days = 30;
}

abbrev empty_db : Db
empty_db = record {
  payments = [];
  packages = (7, basic) ∷ [];
  subscriptions = [];
  user_roles = [];
  role_names = user_role ∷ partner ∷ [];
}

-- User 1 orders the package under the reference K at time 100.
abbrev ordered : Db
ordered = step lib env (create_vnpay no_faults 100 (codes "K") 1 7 (codes "ip")) empty_db

ordered-History : History lib env 100 ordered
ordered-History =
    later 0 100 (create_vnpay no_faults 100 (codes "K") 1 7 (codes "ip")) empty_db (omega arith)
      refl (begin 0 empty_db refl refl)

abbrev fresh : Fresh
fresh = record { now = 200; subscription_id = 31; role_row_id = 41 }

abbrev paid_values : Values
paid_values =
    (codes "vnp_TxnRef", codes "K" ∷ [])
    ∷ (codes "vnp_Amount", codes "1000" ∷ [])
    ∷ (codes "vnp_TmnCode", codes "m" ∷ [])
    ∷ (codes "vnp_ResponseCode", codes "00" ∷ [])
    ∷ (codes "vnp_SecureHash", codes " S" ∷ [])
    ∷ []

callbacks-Realised_example :
    Realised
      (text_id (param (codes "vnp_TxnRef") (vnpay_params_from_values paid_values)))
      (VnpayReported (vnpay_params_from_values paid_values))
      200
      ordered
      (process_vnpay_callback lib env no_faults fresh paid_values ordered)
    × Realised
        (text_id (param (codes "orderId") []))
        (MomoReported [])
        200
        ordered
        (process_momo_callback lib env no_faults fresh [] ordered)
callbacks-Realised_example =
    callbacks-Realised lib env no_faults fresh paid_values [] 100 ordered ordered-History
      (omega arith)

callbacks-Genuine_example :
    (((txn : PaymentTransaction) × VnpayGenuine lib env paid_values ordered txn)
      ⊎ Rejected ordered (process_vnpay_callback lib env no_faults fresh paid_values ordered))
    × (((txn : PaymentTransaction) × MomoGenuine lib env [] ordered txn)
        ⊎ Rejected ordered (process_momo_callback lib env no_faults fresh [] ordered))
callbacks-Genuine_example = callbacks-Genuine lib env no_faults fresh paid_values [] ordered

History-OneCurrent_example : RefsMatch ordered × OneCurrent 100 ordered.subscriptions
History-OneCurrent_example = History-OneCurrent lib env 100 ordered ordered-History

abbrev order : PaymentTransaction
order = vnpay_transaction 1 basic (codes "K") 100

abbrev pending_db : Db
pending_db = record empty_db { payments = (order.txn_ref, order) ∷ [] }

abbrev result : PaymentResult
result = record {
  response_code = codes "00";
  transaction_no = [];
  bank_code = [];
  pay_date = [];
  paid_at = 200;
}

abbrev bought : PartnerSubscription
bought = new_partner_subscription 1 basic fresh

-- The tables after CompletePayment for the order.
abbrev paid_db : Db
paid_db = record {
  payments = (order.txn_ref, payment_update_fields success result 200 order) ∷ [];
  packages = (7, basic) ∷ [];
  subscriptions = (31, bought) ∷ [];
  user_roles = (41, record { user_id = 1; role = partner; is_scoped = false }) ∷ [];
  role_names = user_role ∷ partner ∷ [];
}

pending_refs : RefsMatch pending_db
unfolding lookup text_id
pending_refs ref txn at = ground arith

paid_once :
    complete_payment order.txn_ref result none bought 41 200 pending_db ≡ some (true, paid_db)
unfolding complete_payment update_pending lookup insert text_id subscribe_with_tx create_row
    update_user_role contains_role text_eq first_row
paid_once = refl

-- A slot is used, and the callback comes again.
complete_payment-once_example :
    complete_payment order.txn_ref result none bought 43 300 (step lib env (use_slot 31) paid_db)
    ≡ some (false, step lib env (use_slot 31) paid_db)
complete_payment-once_example =
    complete_payment-once lib env order.txn_ref 41 200 43 300 result result none none bought bought
      pending_db paid_db _ pending_refs paid_once (next (use_slot 31) paid_db done)

abbrev vnpay_config : VnpayConfig
vnpay_config = record {
  tmn_code = codes "m";
  hash_secret = codes "s";
  payment_url = codes "u";
  return_url = codes "r";
}

created-is_amount_example :
    (is_amount
        (param
          (codes "vnp_Amount")
          (vnpay_params lib vnpay_config basic (codes "K") (codes "ip") 100))
        ((order.amount * 100) % two_64)
      ≡ true)
    × (is_amount
          (format_int (momo_transaction 1 basic (codes "K") (codes "R") 100).amount)
          (momo_transaction 1 basic (codes "K") (codes "R") 100).amount
        ≡ true)
created-is_amount_example =
    created-is_amount lib vnpay_config basic (codes "K") (codes "R") (codes "ip") 1 100

-- The order has failed before the payment is reported.
abbrev failed_order : PaymentTransaction
failed_order = record order { status = failed }

abbrev failed_db : Db
failed_db = record empty_db { payments = (order.txn_ref, failed_order) ∷ [] }

late-VnpayGenuine : VnpayGenuine lib env paid_values failed_db failed_order
unfolding vnpay_enabled vnpay_config_from_env vnpay_signed vnpay_verify vnpay_sign
    vnpay_params_from_values param get_value text_eq trim_space trim_left is_space to_lower lower
    is_amount parse_int parse_digits lookup text_id
late-VnpayGenuine = record {
  enabled = refl;
  signed = refl;
  merchant = refl;
  known = refl;
  amount = refl;
}

late_payment_example :
    let o = process_vnpay_callback lib env no_faults fresh paid_values failed_db in
    (o.0.success ≡ true) × (o.0.already_confirmed ≡ true) × (o.1 ≡ failed_db)
unfolding vnpay_paid vnpay_params_from_values param text_eq lookup
late_payment_example =
    late_payment lib env fresh paid_values failed_db failed_order basic late-VnpayGenuine refl refl
      refl refl refl

-- Another subscription of user 1, by another request.
abbrev second : PartnerSubscription
second = new_partner_subscription 1 basic (record fresh { subscription_id = 32 })

subscribe_race_example :
    (bought.id ≢ second.id)
    × (lookup 31 (record paid_db { subscriptions = (31, bought) ∷ (32, second) ∷ [] }).subscriptions
        ≡ some bought)
    × (lookup 32 (record paid_db { subscriptions = (31, bought) ∷ (32, second) ∷ [] }).subscriptions
        ≡ some second)
unfolding subscribe_with_tx create_row lookup insert update_user_role contains_role text_eq
    first_row get_active_subscription
subscribe_race_example =
    subscribe_race 200 1 41 42 bought second pending_db
      (record paid_db { payments = pending_db.payments })
      (record paid_db {
        payments = pending_db.payments;
        subscriptions = (31, bought) ∷ (32, second) ∷ [];
      })
      refl refl refl refl refl

-- User 1 had a subscription that ended at 150, and has bought another one at 200.
abbrev renewed_db : Db
renewed_db = record paid_db {
  subscriptions =
      (30, record bought { id = 30; started_at = 10; expires_at = 150 }) ∷ (31, bought) ∷ [];
}

process_expired_subscriptions-takes_role_example :
    let db' = (process_expired_subscriptions false never never 210 renewed_db).1 in
    (lookup 31 db'.subscriptions ≡ some bought) × NoPartner 1 db'.user_roles
unfolding lookup contains_role text_eq
process_expired_subscriptions-takes_role_example =
    process_expired_subscriptions-takes_role 210 30 31
      (record bought { id = 30; started_at = 10; expires_at = 150 }) bought renewed_db
      (refl, (refl, tt)) refl refl refl refl refl
