-- ===== src/Payment/Outcomes.antt =====
-- repository/payment.repository.go and repository/package.repository.go: what the writes of a
-- payment and of a subscription give, by cases.
use link_up_server.Base.{
  ℕ, ◌≡◌, inl, inr, Bool, true, false, Option, none, some, Dict, lookup, insert, create_row,
  Bool-cases, Option-cases,
}
use link_up_server.Access.Roles.{partner}
use link_up_server.Payment.Transaction.{
  PaymentStatus, PaymentTransaction, PaymentResult, is_pending, payment_update_fields,
  update_pending, success,
}
use link_up_server.Payment.Package.{
  Db, PartnerSubscription, UserRole, subscribe_with_tx, cancel_subscription, update_user_role,
}
use link_up_server.Payment.Repository.{complete_payment}

-- The update of a pending transaction.
pub data Updated (ref : ℕ) (status : PaymentStatus) (result : PaymentResult) (now : ℕ)
    (rows : Dict PaymentTransaction) : Option (Dict PaymentTransaction) → Type 0 where
  untouched :
      ((txn : PaymentTransaction) → lookup ref rows ≡ some txn → is_pending txn.status ≡ false)
      → Updated ref status result now rows none
  moved :
      (txn : PaymentTransaction)
      → lookup ref rows ≡ some txn
      → is_pending txn.status ≡ true
      → Updated ref status result now rows
          (some (insert ref (payment_update_fields status result now txn) rows))

pub update_pending-Updated :
    (ref : ℕ) (status : PaymentStatus) (result : PaymentResult) (now : ℕ)
    (rows : Dict PaymentTransaction)
    → Updated ref status result now rows (update_pending ref status result now rows)
unfolding update_pending
update_pending-Updated ref status result now rows = elim (Option-cases (lookup ref rows)) [
  | inl missing ↦ rw (missing, update_pending) (untouched (λ txn at. cc))
  | inr (txn, found) ↦ elim (Bool-cases (is_pending txn.status)) [
    | inr settled ↦ rw (found, settled, update_pending) (untouched (λ other at. cc))
    | inl waits ↦ rw (found, waits, update_pending) (moved txn found waits)
  ]
]

-- The transaction of subscribeWithTx.
pub data Subscribed (active_sub : Option (ℕ × PartnerSubscription)) (new_sub : PartnerSubscription)
    (db : Db) : Option Db → Type 0 where
  rolled_back : Subscribed active_sub new_sub db none
  subscribed :
      (uuid : ℕ) (rows : Dict UserRole)
      → lookup new_sub.id (cancel_subscription active_sub db.subscriptions) ≡ none
      → update_user_role new_sub.user_id partner uuid db.role_names db.user_roles ≡ some rows
      → Subscribed active_sub new_sub db (
          some (record db {
            subscriptions =
                insert new_sub.id new_sub (cancel_subscription active_sub db.subscriptions);
            user_roles = rows;
          }))

pub subscribe_with_tx-Subscribed :
    (active_sub : Option (ℕ × PartnerSubscription)) (new_sub : PartnerSubscription) (uuid : ℕ)
    (db : Db)
    → Subscribed active_sub new_sub db (subscribe_with_tx active_sub new_sub uuid db)
unfolding subscribe_with_tx create_row
subscribe_with_tx-Subscribed active_sub new_sub uuid db =
    let subs = cancel_subscription active_sub db.subscriptions in
    elim (Option-cases (lookup new_sub.id subs)) [
      | inr (taken, e) ↦ rw (e, subscribe_with_tx) rolled_back
      | inl free ↦
          elim (Option-cases
            (update_user_role new_sub.user_id partner uuid db.role_names db.user_roles)) [
              | inl no_role ↦ rw (free, no_role, subscribe_with_tx) rolled_back
              | inr (rows, e) ↦ rw (free, e, subscribe_with_tx) (subscribed uuid rows free e)
            ]
    ]

-- CompletePayment.
pub data Completed (ref : ℕ) (result : PaymentResult)
    (active_sub : Option (ℕ × PartnerSubscription)) (new_sub : PartnerSubscription) (now : ℕ)
    (db : Db) : Option (Bool × Db) → Type 0 where
  undone : Completed ref result active_sub new_sub now db none
  handled_before :
      ((txn : PaymentTransaction)
        → lookup ref db.payments ≡ some txn
        → is_pending txn.status ≡ false)
      → Completed ref result active_sub new_sub now db (some (false, db))
  transitioned :
      (txn : PaymentTransaction) (db' : Db)
      → lookup ref db.payments ≡ some txn
      → is_pending txn.status ≡ true
      → Subscribed active_sub new_sub
          (record db {
            payments = insert ref (payment_update_fields success result now txn) db.payments;
          })
          (some db')
      → Completed ref result active_sub new_sub now db (some (true, db'))

complete-Completed :
    (ref : ℕ) (result : PaymentResult) (active_sub : Option (ℕ × PartnerSubscription))
    (new_sub : PartnerSubscription) (now : ℕ) (db : Db) (txn : PaymentTransaction) (o : Option Db)
    → lookup ref db.payments ≡ some txn
    → is_pending txn.status ≡ true
    → Subscribed active_sub new_sub
        (record db {
          payments = insert ref (payment_update_fields success result now txn) db.payments;
        })
        o
    → Completed ref result active_sub new_sub now db
        (elim o [ none ↦ none | some db' ↦ some (true, db') ])
complete-Completed ref result active_sub new_sub now db txn none found waits s = undone
complete-Completed ref result active_sub new_sub now db txn (some db') found waits s =
    transitioned txn db' found waits s

after_update-Completed :
    (ref : ℕ) (result : PaymentResult) (active_sub : Option (ℕ × PartnerSubscription))
    (new_sub : PartnerSubscription) (uuid now : ℕ) (db : Db) (o : Option (Dict PaymentTransaction))
    → Updated ref success result now db.payments o
    → Completed ref result active_sub new_sub now db (elim o [
      | none ↦ some (false, db)
      | some rows ↦
          elim (subscribe_with_tx active_sub new_sub uuid (record db { payments = rows })) [
            | none ↦ none
            | some db' ↦ some (true, db')
          ]
    ])
after_update-Completed ref result active_sub new_sub uuid now db _ (untouched settled) =
    handled_before settled
after_update-Completed ref result active_sub new_sub uuid now db _ (moved txn found waits) =
    complete-Completed ref result active_sub new_sub now db txn _ found waits
      (subscribe_with_tx-Subscribed active_sub new_sub uuid _)

pub complete_payment-Completed :
    (ref : ℕ) (result : PaymentResult) (active_sub : Option (ℕ × PartnerSubscription))
    (new_sub : PartnerSubscription) (uuid now : ℕ) (db : Db)
    → Completed ref result active_sub new_sub now db
        (complete_payment ref result active_sub new_sub uuid now db)
unfolding complete_payment
complete_payment-Completed ref result active_sub new_sub uuid now db =
    after_update-Completed ref result active_sub new_sub uuid now db _
      (update_pending-Updated ref success result now db.payments)
