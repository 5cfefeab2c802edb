-- ===== src/Payment/Service.antt =====
-- services/package.service.go: subscriptions without a payment, the subscription of a user, and
-- the worker that ends the expired ones.
use link_up_server.Base.{
  ℕ, ◌+◌, ◌-◌, Bool, true, false, Option, none, some, List, [], ◌∷◌, if◌then◌else◌, ltb, Dict,
}
use link_up_server.Payment.Package.{
  AdPackage, PartnerSubscription, Db, get_active_subscription, subscribe_with_tx, is_overdue,
  expire_subscription, downgrade_partner_role,
}
use link_up_server.Payment.Config.{Faults}
use link_up_server.Payment.Settling.{Fresh, new_partner_subscription, get_package_by_id, attempt}

-- SubscribePackage; `none` is an error.
unfoldable pub subscribe_package : Faults → Fresh → ℕ → ℕ → Db → Option PartnerSubscription × Db
subscribe_package faults fresh user id db = elim (get_package_by_id faults id db) [
  | none ↦ (none, db)
  | some pkg ↦
      if faults.current
      then (none, db)
      else let new_sub = new_partner_subscription user pkg fresh in
        elim (attempt faults.write (
          subscribe_with_tx (get_active_subscription user fresh.now db) new_sub fresh.role_row_id
            db)) [ none ↦ (none, db) | some db' ↦ (some new_sub, db') ]
]

-- The fields of dto.SubscriptionResponse that are computed.
unfoldable pub slots_left : AdPackage → PartnerSubscription → ℕ
slots_left pkg sub = if ltb pkg.max_slots sub.slots_used then 0 else pkg.max_slots - sub.slots_used

-- The ids and users that FindExpiredSubscriptions finds.
unfoldable pub find_expired_subscriptions : ℕ → Dict PartnerSubscription → List (ℕ × ℕ)
find_expired_subscriptions now [] = []
find_expired_subscriptions now ((i, sub) ∷ subs) =
    let rest = find_expired_subscriptions now subs in
    if is_overdue now sub then (i, sub.user_id) ∷ rest else rest

-- One round of the loop of ProcessExpiredSubscriptions; the flags are the errors of its two calls.
unfoldable pub expire_one : Bool → Bool → ℕ × ℕ → Db → Bool × Db
expire_one expire_fails downgrade_fails (id, user) db =
    if expire_fails
    then (false, db)
    else let db' = expire_subscription id db in
      elim (attempt downgrade_fails (downgrade_partner_role user db')) [
        | none ↦ (false, db')
        | some db'' ↦ (true, db'')
      ]

-- The loop, with its count; which calls fail depends on the id.
unfoldable pub expire_each : (ℕ → Bool) → (ℕ → Bool) → List (ℕ × ℕ) → Db → ℕ × Db
expire_each expire_fails downgrade_fails [] db = (0, db)
expire_each expire_fails downgrade_fails (sub ∷ subs) db =
    let (counted, db') = expire_one (expire_fails sub.0) (downgrade_fails sub.0) sub db in
    let (count, db'') = expire_each expire_fails downgrade_fails subs db' in
    (if counted then count + 1 else count, db'')

-- ProcessExpiredSubscriptions; `none` is an error.
unfoldable pub process_expired_subscriptions :
    Bool → (ℕ → Bool) → (ℕ → Bool) → ℕ → Db → Option ℕ × Db
process_expired_subscriptions find_fails expire_fails downgrade_fails now db =
    if find_fails
    then (none, db)
    else let (count, db') =
        expire_each expire_fails downgrade_fails (find_expired_subscriptions now db.subscriptions)
          db in
      (some count, db')
