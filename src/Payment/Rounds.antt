-- ===== src/Payment/Rounds.antt =====
-- services/package.service.go: one round of ProcessExpiredSubscriptions, and the list of overdue
-- subscriptions.
use link_up_server.Base.{
  ℕ, ◌≡◌, ◌≢◌, ◌⊎◌, inl, inr, refl, sym, ap, subst, true, false, Option, none, some, List, [], ◌∷◌,
  arith, ◌==◌, Dict, Distinct, lookup, lookup-insert, updated, update_rows, Bool-cases,
  Option-cases,
}
use link_up_server.Text.{text_eq}
use link_up_server.Access.Roles.{user_role, contains_role}
use link_up_server.Payment.Package.{
  Db, PartnerSubscription, UserRole, expired, is_overdue, is_partner_row, downgrade_partner_role,
  expire_subscription, change_subscription,
}
use link_up_server.Payment.Service.{expire_one, find_expired_subscriptions}

pub expired_other :
    (id other : ℕ) (sub : PartnerSubscription) (db : Db)
    → lookup other db.subscriptions ≡ some sub
    → id ≢ other
    → lookup other (expire_subscription id db).subscriptions ≡ some sub
unfolding change_subscription
expired_other id other sub db at apart = elim (Option-cases (lookup id db.subscriptions)) [
  | inl missing ↦ rw (missing, change_subscription) at
  | inr (old, found) ↦
      rw (found, change_subscription)
        (ground (arith, lookup-insert other id (record old { status = expired }) db.subscriptions))
]

pub expired-role_names : (id : ℕ) (db : Db) → (expire_subscription id db).role_names ≡ db.role_names
unfolding change_subscription
expired-role_names id db = elim (Option-cases (lookup id db.subscriptions)) [
  | inl missing ↦ rw (missing, change_subscription) refl
  | inr (old, found) ↦ rw (found, change_subscription) refl
]

pub expired-user_roles : (id : ℕ) (db : Db) → (expire_subscription id db).user_roles ≡ db.user_roles
unfolding change_subscription
expired-user_roles id db = elim (Option-cases (lookup id db.subscriptions)) [
  | inl missing ↦ rw (missing, change_subscription) refl
  | inr (old, found) ↦ rw (found, change_subscription) refl
]

-- No platform row of the user is that of a partner.
abbrev pub NoPartner : ℕ → Dict UserRole → Type 0
NoPartner user rows =
    (i : ℕ) (row : UserRole) → lookup i rows ≡ some row → is_partner_row user row ≡ false

abbrev pub downgraded : ℕ → Dict UserRole → Dict UserRole
downgraded user rows =
    update_rows (is_partner_row user) (λ row. record row { role = user_role }) rows

-- A row after a downgrade of `mine`, for a user who is `mine` or had no row of a partner.
pub downgraded-row :
    (user mine : ℕ) (row : UserRole) (o : Option UserRole)
    → ((r : UserRole) → o ≡ some r → is_partner_row mine r ≡ false → is_partner_row user r ≡ false)
    → updated (is_partner_row mine) (λ r. record r { role = user_role }) o ≡ some row
    → is_partner_row user row ≡ false
unfolding text_eq
downgraded-row user mine row none h = λ e. cc
downgraded-row user mine row (some r) h = elim (Bool-cases (is_partner_row mine r)) [
  | inl on ↦ rw on (λ e.
      let same : record r { role = user_role } ≡ row = ground arith in
      subst (λ x. is_partner_row user x ≡ false) same (ground arith))
  | inr off ↦ rw off (λ e.
      let same : r ≡ row = ground arith in
      subst (λ x. is_partner_row user x ≡ false) same (h r refl off))
]

-- One round for `mine`.
pub data Rounded (mine id : ℕ) (db db' : Db) : Type 0 where
  rounded :
      db'.role_names ≡ db.role_names
      → db'.user_roles ≡ downgraded mine db.user_roles
      → db'.subscriptions ≡ (expire_subscription id db).subscriptions
      → Rounded mine id db db'

pub expire_one-Rounded :
    (id mine : ℕ) (db : Db)
    → contains_role db.role_names user_role ≡ true
    → Rounded mine id db (expire_one false false (id, mine) db).1
unfolding expire_one downgrade_partner_role
expire_one-Rounded id mine db roles =
    let roles' : contains_role (expire_subscription id db).role_names user_role ≡ true =
      rw (expired-role_names id db) roles in
    rw (roles', expire_one)
      (rounded (expired-role_names id db) (rw (expired-user_roles id db) refl) refl)

-- The users of a list of expired subscriptions, and ids that are not in it.
abbrev pub Lists : ℕ → List (ℕ × ℕ) → Type 0
Lists user [] = ⊥
Lists user (e ∷ es) = (e.1 ≡ user) ⊎ Lists user es

abbrev pub Lacks : ℕ → List (ℕ × ℕ) → Type 0
Lacks id [] = Unit
Lacks id (e ∷ es) = (e.0 ≢ id) × Lacks id es

module _ (now : ℕ) where
  pub absent-Lacks :
      (id : ℕ) (subs : Dict PartnerSubscription)
      → lookup id subs ≡ none
      → Lacks id (find_expired_subscriptions now subs)
  unfolding find_expired_subscriptions lookup
  absent-Lacks id [] h = tt
  absent-Lacks id ((i, s) ∷ subs) h =
      let rest : Lacks id (find_expired_subscriptions now subs) =
        absent-Lacks id subs (ground arith) in
      elim (Bool-cases (is_overdue now s)) [
        | inl over ↦ rw (over, find_expired_subscriptions) (ground arith, rest)
        | inr runs ↦ rw (runs, find_expired_subscriptions) rest
      ]

  pub running-Lacks :
      (id : ℕ) (sub : PartnerSubscription) (subs : Dict PartnerSubscription)
      → Distinct subs
      → lookup id subs ≡ some sub
      → is_overdue now sub ≡ false
      → Lacks id (find_expired_subscriptions now subs)
  unfolding find_expired_subscriptions lookup
  running-Lacks id sub [] u h off = tt
  running-Lacks id sub ((i, s) ∷ subs) u h off = elim (Bool-cases (id == i)) [
    | inl here ↦
        let same : sub ≡ s = ground arith in
        let runs : is_overdue now s ≡ false = subst (λ x. is_overdue now x ≡ false) same off in
        let rest = absent-Lacks id subs (ground (arith, u.0)) in
        rw (runs, find_expired_subscriptions) rest
    | inr other ↦
        let rest = running-Lacks id sub subs u.1 (ground arith) off in
        elim (Bool-cases (is_overdue now s)) [
          | inl over ↦ rw (over, find_expired_subscriptions) (ground arith, rest)
          | inr runs ↦ rw (runs, find_expired_subscriptions) rest
        ]
  ]

  pub overdue-Lists :
      (id : ℕ) (old : PartnerSubscription) (subs : Dict PartnerSubscription)
      → lookup id subs ≡ some old
      → is_overdue now old ≡ true
      → Lists old.user_id (find_expired_subscriptions now subs)
  unfolding find_expired_subscriptions lookup
  overdue-Lists id old [] h over = absurd (ground arith)
  overdue-Lists id old ((i, s) ∷ subs) h over = elim (Bool-cases (id == i)) [
    | inl here ↦
        let same : s ≡ old = ground arith in
        let over' : is_overdue now s ≡ true =
          subst (λ x. is_overdue now x ≡ true) (sym same) over in
        rw (over', find_expired_subscriptions) (inl (ap user_id_of same))
    | inr other ↦
        let rest = overdue-Lists id old subs (ground arith) over in
        elim (Bool-cases (is_overdue now s)) [
          | inl over' ↦ rw (over', find_expired_subscriptions) (inr rest)
          | inr runs ↦ rw (runs, find_expired_subscriptions) rest
        ]
  ]
    where
      user_id_of : PartnerSubscription → ℕ
      user_id_of s = s.user_id
