-- ===== src/Payment/Expiry.antt =====
-- services/package.service.go: the worker that ends expired subscriptions, on the tables that it
-- does not touch and on those that it does.
use link_up_server.Base.{
  ℕ, ◌≡◌, inl, inr, refl, ◌∙◌, Bool, true, false, List, [], ◌∷◌, lookup, Bool-cases, Option-cases,
}
use link_up_server.Access.Roles.{contains_role, user_role}
use link_up_server.Payment.Package.{
  Db, PartnerSubscription, change_subscription, expire_subscription, downgrade_partner_role,
}
use link_up_server.Payment.Service.{
  expire_one, expire_each, find_expired_subscriptions, process_expired_subscriptions,
}

pub change_subscription-payments :
    (id : ℕ) (f : PartnerSubscription → PartnerSubscription) (db : Db)
    → (change_subscription id f db).payments ≡ db.payments
unfolding change_subscription
change_subscription-payments id f db = elim (Option-cases (lookup id db.subscriptions)) [
  | inl missing ↦ rw (missing, change_subscription) refl
  | inr (sub, found) ↦ rw (found, change_subscription) refl
]

-- A round leaves the subscriptions that ExpireSubscription wrote, or all of them, and the transactions.
pub data Round (id : ℕ) (db : Db) : Db → Type 0 where
  skipped : Round id db db
  ended :
      (db' : Db)
      → db'.subscriptions ≡ (expire_subscription id db).subscriptions
      → db'.payments ≡ (expire_subscription id db).payments
      → Round id db db'

pub expire_one-Round :
    (expire_fails downgrade_fails : Bool) (id user : ℕ) (db : Db)
    → Round id db (expire_one expire_fails downgrade_fails (id, user) db).1
unfolding expire_one downgrade_partner_role
expire_one-Round true downgrade_fails id user db = skipped
expire_one-Round false true id user db = ended _ refl refl
expire_one-Round false false id user db =
    elim (Bool-cases (contains_role (expire_subscription id db).role_names user_role)) [
      | inr missing ↦ rw (missing, expire_one) (ended _ refl refl)
      | inl found ↦ rw (found, expire_one) (ended _ refl refl)
    ]

Round-payments : (id : ℕ) (db db' : Db) → Round id db db' → db'.payments ≡ db.payments
Round-payments id db _ skipped = refl
Round-payments id db db' (ended _ subs same) = same ∙ change_subscription-payments id _ db

pub expire_each-payments :
    (expire_fails downgrade_fails : ℕ → Bool) (subs : List (ℕ × ℕ)) (db : Db)
    → (expire_each expire_fails downgrade_fails subs db).1.payments ≡ db.payments
unfolding expire_each
expire_each-payments ef df [] db = refl
expire_each-payments ef df ((id, user) ∷ subs) db =
    expire_each-payments ef df subs (expire_one (ef id) (df id) (id, user) db).1
    ∙ Round-payments id db _ (expire_one-Round (ef id) (df id) id user db)

pub process_expired_subscriptions-payments :
    (find_fails : Bool) (expire_fails downgrade_fails : ℕ → Bool) (now : ℕ) (db : Db)
    → (process_expired_subscriptions find_fails expire_fails downgrade_fails now db).1.payments
      ≡ db.payments
unfolding process_expired_subscriptions
process_expired_subscriptions-payments true ef df now db = refl
process_expired_subscriptions-payments false ef df now db =
    expire_each-payments ef df (find_expired_subscriptions now db.subscriptions) db
