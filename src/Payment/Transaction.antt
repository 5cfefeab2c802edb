-- ===== src/Payment/Transaction.antt =====
-- models/payment_transaction.model.go and the conditional updates of
-- repository/payment.repository.go. Amounts are int64, as their residues modulo 2 ^ 64.
use link_up_server.Base.{
  ℕ, Bool, true, false, Option, none, some, if◌then◌else◌, Dict, lookup, insert,
}
use link_up_server.Text.{Text}

pub data PaymentStatus : Type 0 where
  pending success failed cancelled : PaymentStatus

pub data Gateway : Type 0 where
  vnpay momo : Gateway

pub record PaymentTransaction : Type 0 where
  pub txn_ref : ℕ
  pub request_id : Text
  pub user_id : ℕ
  pub package_id : ℕ
  pub amount : ℕ
  pub status : PaymentStatus
  pub gateway : Gateway
  pub response_code : Text
  pub transaction_no : Text
  pub bank_code : Text
  pub pay_date : Text
  pub order_info : Text
  pub paid_at : Option ℕ
  pub created_at : ℕ
  pub updated_at : ℕ

pub record PaymentResult : Type 0 where
  pub response_code : Text
  pub transaction_no : Text
  pub bank_code : Text
  pub pay_date : Text
  pub paid_at : ℕ

abbrev pub is_pending : PaymentStatus → Bool
is_pending pending = true
is_pending _ = false

abbrev pub is_success : PaymentStatus → Bool
is_success success = true
is_success _ = false

-- paymentUpdateFields, applied to a row.
abbrev pub payment_update_fields :
    PaymentStatus → PaymentResult → ℕ → PaymentTransaction → PaymentTransaction
payment_update_fields new_status result now txn = record txn {
  status = new_status;
  response_code = result.response_code;
  transaction_no = result.transaction_no;
  bank_code = result.bank_code;
  pay_date = result.pay_date;
  updated_at = now;
  paid_at = if is_success new_status then some result.paid_at else txn.paid_at;
}

-- The update under `txn_ref = ? AND status = 'pending'`; `none` is `RowsAffected == 0`.
unfoldable pub update_pending :
    ℕ
    → PaymentStatus
    → PaymentResult
    → ℕ
    → Dict PaymentTransaction
    → Option (Dict PaymentTransaction)
update_pending ref new_status result now rows = elim (lookup ref rows) [
  | none ↦ none
  | some txn ↦
      if is_pending txn.status
      then some (insert ref (payment_update_fields new_status result now txn) rows)
      else none
]
