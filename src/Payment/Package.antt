-- ===== src/Payment/Package.antt =====
-- models/ad_package.model.go, models/partner_subscription.model.go and
-- repository/package.repository.go: packages, subscriptions and the platform role of a subscriber.
-- A time is a number of seconds, and a day has 86400 of them. A price is a number of hundredths of
-- a dong. The times of creation and change of a row, which nothing reads, are left out.
use link_up_server.Base.{
  ℕ, ◌+◌, ◌-◌, Bool, true, false, not, ◌&&◌, Option, none, some, List, if◌then◌else◌, ltb, ◌==◌,
  Dict, lookup, insert, first_row, create_row, update_rows,
}
use link_up_server.Text.{Text, text_eq}
use link_up_server.Access.Roles.{partner, user_role, contains_role}
use link_up_server.Payment.Transaction.{PaymentTransaction}

pub record AdPackage : Type 0 where
  pub id : ℕ
  pub name : Text
  pub price_monthly : ℕ
  pub max_slots : ℕ
  pub max_duration_days : ℕ

pub data SubscriptionStatus : Type 0 where
  active expired cancelled : SubscriptionStatus

pub record PartnerSubscription : Type 0 where
  pub id : ℕ
  pub user_id : ℕ
  pub package_id : ℕ
  pub slots_used : ℕ
  pub started_at : ℕ
  pub expires_at : ℕ
  pub status : SubscriptionStatus
  pub auto_renew : Bool

-- A row of `user_roles`, with the name of the role that it points to.
pub record UserRole : Type 0 where
  pub user_id : ℕ
  pub role : Text
  pub is_scoped : Bool

-- The tables; `role_names` are the names in the table `roles`.
pub record Db : Type 0 where
  pub payments : Dict PaymentTransaction
  pub packages : Dict AdPackage
  pub subscriptions : Dict PartnerSubscription
  pub user_roles : Dict UserRole
  pub role_names : List Text

abbrev pub is_active : SubscriptionStatus → Bool
is_active active = true
is_active _ = false

-- `user_id = ? AND status = 'active' AND expires_at > now`
abbrev pub is_current : ℕ → ℕ → PartnerSubscription → Bool
is_current user now sub = sub.user_id == user && is_active sub.status && ltb now sub.expires_at

unfoldable pub get_active_subscription : ℕ → ℕ → Db → Option (ℕ × PartnerSubscription)
get_active_subscription user now db = first_row (is_current user now) db.subscriptions

unfoldable pub change_subscription : ℕ → (PartnerSubscription → PartnerSubscription) → Db → Db
change_subscription id f db = elim (lookup id db.subscriptions) [
  | none ↦ db
  | some sub ↦ record db { subscriptions = insert id (f sub) db.subscriptions }
]

abbrev pub increment_slots_used : ℕ → Db → Db
increment_slots_used id db =
    change_subscription id (λ sub. record sub { slots_used = sub.slots_used + 1 }) db

-- The condition `slots_used > 0` of the statement is in the row's change.
abbrev pub decrement_slots_used : ℕ → Db → Db
decrement_slots_used id db =
    change_subscription id
      (λ sub. if ltb 0 sub.slots_used then record sub { slots_used = sub.slots_used - 1 } else sub)
      db

-- `user_id = ? AND scope_id IS NULL`
abbrev pub is_platform_row : ℕ → UserRole → Bool
is_platform_row user row = row.user_id == user && not row.is_scoped

-- UpdateUserRole, and steps 3 and 4 of subscribeWithTx; `none` is an error. The id of a new row is an argument.
unfoldable pub update_user_role : ℕ → Text → ℕ → List Text → Dict UserRole → Option (Dict UserRole)
update_user_role user role uuid role_names rows =
    if not (contains_role role_names role)
    then none
    else elim (first_row (is_platform_row user) rows) [
      | none ↦ create_row uuid (record { user_id = user; role = role; is_scoped = false }) rows
      | some (i, row) ↦ some (insert i (record row { role = role }) rows)
    ]

-- Step 1 of subscribeWithTx: `Save` writes the whole row that the caller read before.
abbrev pub cancel_subscription :
    Option (ℕ × PartnerSubscription) → Dict PartnerSubscription → Dict PartnerSubscription
cancel_subscription none subs = subs
cancel_subscription (some (i, sub)) subs = insert i (record sub { status = cancelled }) subs

-- subscribeWithTx; on an error, `none`, the transaction is rolled back.
unfoldable pub subscribe_with_tx :
    Option (ℕ × PartnerSubscription) → PartnerSubscription → ℕ → Db → Option Db
subscribe_with_tx active_sub new_sub uuid db =
    elim (create_row new_sub.id new_sub (cancel_subscription active_sub db.subscriptions)) [
      | none ↦ none
      | some subs ↦
          elim (update_user_role new_sub.user_id partner uuid db.role_names db.user_roles) [
            | none ↦ none
            | some rows ↦ some (record db { subscriptions = subs; user_roles = rows })
          ]
    ]

-- `status = 'active' AND expires_at < now`
abbrev pub is_overdue : ℕ → PartnerSubscription → Bool
is_overdue now sub = is_active sub.status && ltb sub.expires_at now

abbrev pub expire_subscription : ℕ → Db → Db
expire_subscription id db = change_subscription id (λ sub. record sub { status = expired }) db

-- `user_id = ? AND scope_id IS NULL AND role = 'PARTNER'`
abbrev pub is_partner_row : ℕ → UserRole → Bool
is_partner_row user row = is_platform_row user row && text_eq row.role partner

-- DowngradePartnerRole; `none` is an error.
unfoldable pub downgrade_partner_role : ℕ → Db → Option Db
downgrade_partner_role user db =
    if not (contains_role db.role_names user_role)
    then none
    else some (record db {
      user_roles =
          update_rows (is_partner_row user) (λ row. record row { role = user_role }) db.user_roles;
    })
