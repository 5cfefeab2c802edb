-- ===== src/Payment/Settled.antt =====
-- The table of transactions in all operations of the payment services.
use link_up_server.Base.{
  ℕ, ◌≡◌, subst, inl, inr, refl, Bool, true, false, Option, none, some, arith, ◌==◌, Dict, lookup,
  insert, lookup-insert, create_row, Option-cases, if◌then◌else◌,
}
use link_up_server.Text.{Text}
use link_up_server.Payment.Transaction.{
  PaymentTransaction, PaymentResult, is_pending, payment_update_fields, success, failed,
}
use link_up_server.Payment.Package.{Db, PartnerSubscription}
use link_up_server.Payment.Config.{Env, Faults, CallbackResult}
use link_up_server.Payment.Settling.{Fresh}
use link_up_server.Payment.Repository.{create_payment, mark_failed, marked}
use link_up_server.Payment.Outcomes.{
  Updated, untouched, moved, Subscribed, rolled_back, subscribed, update_pending-Updated,
}
use link_up_server.Payment.Callbacks.{RefsMatch, Outcome, refused, repeated, declined, paid_for}
use link_up_server.Payment.Vnpay.{Library, create_vnpay_payment}
use link_up_server.Payment.Creation.{create_vnpay_payment-cases}

-- Every transaction that is not pending stands unchanged, and every transaction stands under its reference.
pub record Keeps (db db' : Db) : Type 0 where
  pub settled :
      (ref : ℕ) (txn : PaymentTransaction)
      → lookup ref db.payments ≡ some txn
      → is_pending txn.status ≡ false
      → lookup ref db'.payments ≡ some txn
  pub refs : RefsMatch db'

module _ (db : Db) (refs : RefsMatch db) where
  pub same-Keeps : (db' : Db) → db'.payments ≡ db.payments → Keeps db db'
  same-Keeps db' same = record {
    settled = λ ref txn at final. ground (arith, same);
    refs = λ ref txn at. refs ref txn (ground (arith, same));
  }

  pub insert-Keeps :
      (db' : Db) (ref : ℕ) (new : PaymentTransaction)
      → db'.payments ≡ insert ref new db.payments
      → new.txn_ref ≡ ref
      → ((old : PaymentTransaction)
          → lookup ref db.payments ≡ some old
          → is_pending old.status ≡ true)
      → Keeps db db'
  insert-Keeps db' ref new same named old_pending =
      let at : (k : ℕ)
          → lookup k db'.payments ≡ (if k == ref then some new else lookup k db.payments) =
        λ (k : ℕ). ground (arith, same, lookup-insert k ref new db.payments) in
      record {
        settled = λ k txn found final. ground (arith, at k, old_pending txn);
        refs = λ k txn found. ground (arith, at k, refs k txn);
      }

  pub Subscribed-payments :
      (active_sub : Option (ℕ × PartnerSubscription)) (new_sub : PartnerSubscription) (db0 db' : Db)
      (o : Option Db)
      → Subscribed active_sub new_sub db0 o
      → o ≡ some db'
      → db'.payments ≡ db0.payments
  Subscribed-payments a n db0 db' _ rolled_back e = cc
  Subscribed-payments a n db0 db' _ (subscribed uuid rows free role) e = ground arith

  pub callback-Keeps :
      (ref : ℕ) (is_paid : Bool) (fresh : Fresh) (o : CallbackResult × Db)
      → Outcome ref is_paid fresh db o
      → Keeps db o.1
  callback-Keeps ref is_paid fresh _ (refused r e) = same-Keeps db refl
  callback-Keeps ref is_paid fresh _ (repeated r txn e a found final) = same-Keeps db refl
  callback-Keeps ref is_paid fresh _ (declined r txn result e p found waits) =
      insert-Keeps _ ref (payment_update_fields failed result fresh.now txn) refl
        (refs ref txn found) (λ old at. ground (arith, found))
  callback-Keeps ref is_paid fresh _ (paid_for r txn result pkg db' e a p found waits pk s) =
      insert-Keeps db' ref (payment_update_fields success result fresh.now txn)
        (Subscribed-payments _ _ _ db' _ s refl) (refs ref txn found)
        (λ old at. ground (arith, found))

  abbrev pub KeepsIn : Option Db → Type 0
  KeepsIn none = Unit
  KeepsIn (some db') = Keeps db db'

  pub create_payment-Keeps : (txn : PaymentTransaction) → KeepsIn (create_payment txn db)
  unfolding create_payment create_row
  create_payment-Keeps txn = elim (Option-cases (lookup txn.txn_ref db.payments)) [
    | inr (old, taken) ↦ rw (taken, create_payment) tt
    | inl free ↦
        rw (free, create_payment)
          (insert-Keeps _ txn.txn_ref txn refl refl (λ old at. absurd (ground (arith, free))))
  ]

  pub created-Keeps :
      (txn : PaymentTransaction) (db' : Db) → create_payment txn db ≡ some db' → Keeps db db'
  created-Keeps txn db' e = subst KeepsIn e (create_payment-Keeps txn)

  pub mark_failed-Keeps :
      (ref : ℕ) (result : PaymentResult) (now : ℕ) → Keeps db (mark_failed ref result now db).1
  unfolding mark_failed
  mark_failed-Keeps ref result now =
      marked-Keeps _ (update_pending-Updated ref failed result now db.payments)
    where
      marked-Keeps :
          (o : Option (Dict PaymentTransaction))
          → Updated ref failed result now db.payments o
          → Keeps db (marked db o).1
      marked-Keeps _ (untouched final) = same-Keeps db refl
      marked-Keeps _ (moved old at waits) =
          insert-Keeps _ ref (payment_update_fields failed result now old) refl (refs ref old at)
            (λ other h. ground (arith, at))

  pub create_vnpay_payment-Keeps :
      (lib : Library) (env : Env) (faults : Faults) (now : ℕ) (ref : Text) (user id : ℕ) (ip : Text)
      → Keeps db (create_vnpay_payment lib env faults now ref user id ip db).1
  create_vnpay_payment-Keeps lib env faults now ref user id ip =
      create_vnpay_payment-cases db (Keeps db) lib env faults now ref user id ip
        (same-Keeps db refl) created-Keeps
