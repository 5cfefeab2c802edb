-- ===== src/Payment/Repository.antt =====
-- repository/payment.repository.go: the table of transactions.
use link_up_server.Base.{ℕ, Bool, true, false, Option, none, some, Dict, lookup, create_row}
use link_up_server.Payment.Transaction.{
  PaymentTransaction, PaymentResult, success, failed, update_pending,
}
use link_up_server.Payment.Package.{Db, PartnerSubscription, subscribe_with_tx}

-- Create, under the unique index on `txn_ref`; `none` is an error.
unfoldable pub create_payment : PaymentTransaction → Db → Option Db
create_payment txn db = elim (create_row txn.txn_ref txn db.payments) [
  | none ↦ none
  | some rows ↦ some (record db { payments = rows })
]

abbrev pub find_by_txn_ref : ℕ → Db → Option PaymentTransaction
find_by_txn_ref ref db = lookup ref db.payments

-- CompletePayment, with whether the transaction moved; `none` is an error, which rolls back.
unfoldable pub complete_payment :
    ℕ
    → PaymentResult
    → Option (ℕ × PartnerSubscription)
    → PartnerSubscription
    → ℕ
    → ℕ
    → Db
    → Option (Bool × Db)
complete_payment ref result active_sub new_sub uuid now db =
    elim (update_pending ref success result now db.payments) [
      | none ↦ some (false, db)
      | some rows ↦
          elim (subscribe_with_tx active_sub new_sub uuid (record db { payments = rows })) [
            | none ↦ none
            | some db' ↦ some (true, db')
          ]
    ]

-- Whether the update wrote a row, and the tables after it.
abbrev pub marked : Db → Option (Dict PaymentTransaction) → Bool × Db
marked db none = (false, db)
marked db (some rows) = (true, record db { payments = rows })

unfoldable pub mark_failed : ℕ → PaymentResult → ℕ → Db → Bool × Db
mark_failed ref result now db = marked db (update_pending ref failed result now db.payments)
