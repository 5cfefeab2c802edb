-- ===== src/Payment/Config.antt =====
-- services/payment.service.go and services/momo.service.go: the configuration of the two gateways,
-- and the answers of the payment services.
use link_up_server.Base.{Bool, false, not, ◌&&◌, []}
use link_up_server.Text.{Text, text_eq, trim_space}

-- The fields of `config.Env` that the services read.
pub record Env : Type 0 where
  pub vnpay_tmn_code : Text
  pub vnpay_hash_secret : Text
  pub vnpay_payment_url : Text
  pub vnpay_return_url : Text
  pub momo_partner_code : Text
  pub momo_access_key : Text
  pub momo_secret_key : Text
  pub momo_endpoint : Text
  pub momo_redirect_url : Text
  pub momo_ipn_url : Text

pub record VnpayConfig : Type 0 where
  pub tmn_code : Text
  pub hash_secret : Text
  pub payment_url : Text
  pub return_url : Text

unfoldable pub vnpay_config_from_env : Env → VnpayConfig
vnpay_config_from_env env = record {
  tmn_code = trim_space env.vnpay_tmn_code;
  hash_secret = trim_space env.vnpay_hash_secret;
  payment_url = trim_space env.vnpay_payment_url;
  return_url = trim_space env.vnpay_return_url;
}

abbrev pub is_set : Text → Bool
is_set s = not (text_eq s [])

unfoldable pub vnpay_enabled : VnpayConfig → Bool
vnpay_enabled c =
    is_set c.tmn_code && is_set c.hash_secret && is_set c.payment_url && is_set c.return_url

pub record MomoConfig : Type 0 where
  pub partner_code : Text
  pub access_key : Text
  pub secret_key : Text
  pub endpoint : Text
  pub redirect_url : Text
  pub ipn_url : Text

unfoldable pub momo_config_from_env : Env → MomoConfig
momo_config_from_env env = record {
  partner_code = trim_space env.momo_partner_code;
  access_key = trim_space env.momo_access_key;
  secret_key = trim_space env.momo_secret_key;
  endpoint = trim_space env.momo_endpoint;
  redirect_url = trim_space env.momo_redirect_url;
  ipn_url = trim_space env.momo_ipn_url;
}

unfoldable pub momo_enabled : MomoConfig → Bool
momo_enabled c =
    is_set c.partner_code
    && is_set c.access_key
    && is_set c.secret_key
    && is_set c.endpoint
    && is_set c.redirect_url
    && is_set c.ipn_url

-- The texts of `Message`.
pub data Message : Type 0 where
  none_given not_configured bad_signature other_merchant lookup_failed unknown_transaction
        other_request wrong_amount confirmed_before update_failed not_paid package_missing
        current_unknown activation_failed paid :
      Message

-- dto.PaymentCallbackResult
pub record CallbackResult : Type 0 where
  pub valid : Bool
  pub internal : Bool
  pub not_found : Bool
  pub amount_mismatch : Bool
  pub success : Bool
  pub already_confirmed : Bool
  pub txn_ref : Text
  pub response_code : Text
  pub message : Message

abbrev pub new_result : Text → Text → CallbackResult
new_result txn_ref response_code = record {
  valid = false;
  internal = false;
  not_found = false;
  amount_mismatch = false;
  success = false;
  already_confirmed = false;
  txn_ref = txn_ref;
  response_code = response_code;
  message = none_given;
}

-- Which of the calls of the database fail in a request.
pub record Faults : Type 0 where
  pub find : Bool
  pub package_row : Bool
  pub current : Bool
  pub write : Bool
