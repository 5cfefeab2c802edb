-- ===== src/Payment/Shop.antt =====
-- The payment services as a shop of plans: an abstract state, and the callbacks of the gateways
-- as events on it.
use link_up_server.Base.{
  arith, ◌+◌, ◌*◌, ◌≢◌, [], ℕ, ◌≡◌, ◌≤◌, ◌⊎◌, inl, inr, refl, ap, Bool, true, false, Option, none,
  some, ltb, ◌==◌, if◌then◌else◌, Dict, lookup, insert, lookup-insert, Bool-cases,
}
use link_up_server.Payment.Transaction.{
  PaymentStatus, PaymentTransaction, pending, success, failed, cancelled, is_pending,
  payment_update_fields,
}
use link_up_server.Text.{Text, codes, text_eq, text_eq-eq, text_eq_refl}
use link_up_server.Payment.Package.{AdPackage, Db, PartnerSubscription, get_active_subscription}
use link_up_server.Payment.Config.{Env, Faults, CallbackResult}
use link_up_server.Payment.Settling.{Fresh, new_partner_subscription}
use link_up_server.Payment.Callbacks.{RefsMatch, Outcome, refused, repeated, declined, paid_for}
use link_up_server.Payment.Current.{OneCurrent, later-OneCurrent}
use link_up_server.Payment.Plans.{Subscribed-current}
use link_up_server.Payment.Query.{Params, Values, param, vnpay_params_from_values}
use link_up_server.Payment.Vnpay.{Library, text_id, vnpay_paid, process_vnpay_callback}
use link_up_server.Payment.Momo.{momo_paid, process_momo_callback}
use link_up_server.Payment.Answers.{process_vnpay_callback-Outcome, process_momo_callback-Outcome}
use link_up_server.Payment.History.{History, History-OneCurrent}
use link_up_server.Payment.Settled.{Subscribed-payments}

-- A package, and the time at which it ends.
abbrev pub Plan : Type 0
Plan = ℕ × ℕ

-- The status of each order, and the plan of each user.
pub record Shop : Type 0 where
  pub orders : ℕ → Option PaymentStatus
  pub plans : ℕ → Option Plan

abbrev pub status_of : Option PaymentTransaction → Option PaymentStatus
status_of none = none
status_of (some txn) = some txn.status

abbrev pub plan_of : Option (ℕ × PartnerSubscription) → Option Plan
plan_of none = none
plan_of (some (i, sub)) = some (sub.package_id, sub.expires_at)

-- What the tables say at a time.
unfoldable pub shop : ℕ → Db → Shop
shop now db = record {
  orders = λ ref. status_of (lookup ref db.payments);
  plans = λ user. plan_of (get_active_subscription user now db);
}

pub data Event : Type 0 where
  nothing : Event
  declines : ℕ → Event
  pays : ℕ → ℕ → Plan → Event

abbrev set_at {ℓ} : {A : Type ℓ} → ℕ → A → (ℕ → A) → ℕ → A
set_at k a f j = if j == k then a else f j

-- A plan that is over at once is none.
unfoldable pub apply : ℕ → Event → Shop → Shop
apply now nothing s = s
apply now (declines ref) s = record s { orders = set_at ref (some failed) s.orders }
apply now (pays ref user (id, ends)) s = record {
  orders = set_at ref (some success) s.orders;
  plans = set_at user (if ltb now ends then some (id, ends) else none) s.plans;
}

-- When an event can happen at a callback for the order `ref`: the order is pending, the gateway
-- reports a payment or not, and a plan goes to the user of the order and is the package of it, from
-- now on.
pub data Enabled (ref : ℕ) (reported : Type 0) (now : ℕ) (db : Db) : Event → Type 0 where
  always : Enabled ref reported now db nothing
  unpaid :
      (txn : PaymentTransaction)
      → ¬ reported
      → lookup ref db.payments ≡ some txn
      → txn.status ≡ pending
      → Enabled ref reported now db (declines ref)
  bought :
      (txn : PaymentTransaction) (pkg : AdPackage)
      → reported
      → lookup ref db.payments ≡ some txn
      → txn.status ≡ pending
      → lookup txn.package_id db.packages ≡ some pkg
      → Enabled ref reported now db
          (pays ref txn.user_id (pkg.id, now + pkg.max_duration_days * 86400))

-- VNPay reports a payment: the response code is 00, and so is the status of the transaction, if
-- there is one.
abbrev pub VnpayReported : Params → Type 0
VnpayReported params =
    (param (codes "vnp_ResponseCode") params ≡ codes "00")
    × ((param (codes "vnp_TransactionStatus") params ≡ [])
        ⊎ (param (codes "vnp_TransactionStatus") params ≡ codes "00"))

-- MoMo reports a payment: the result code is 0.
abbrev pub MomoReported : Params → Type 0
MomoReported values = param (codes "resultCode") values ≡ codes "0"

text_eq-ne : (a b : Text) → text_eq a b ≡ false → a ≢ b
text_eq-ne a b h e = ground (arith, text_eq_refl b, ap (λ t. text_eq t b) e)

vnpay_paid-Reported : (params : Params) → vnpay_paid params ≡ true → VnpayReported params
unfolding vnpay_paid
vnpay_paid-Reported params h =
    let code = param (codes "vnp_ResponseCode") params in
    let status = param (codes "vnp_TransactionStatus") params in
    (
      text_eq-eq code (codes "00") (ground arith),
      elim (Bool-cases (text_eq status [])) [
        | inl without ↦ inl (text_eq-eq status [] without)
        | inr some_status ↦ inr (text_eq-eq status (codes "00") (ground arith))
      ],
    )

vnpay_unpaid-Reported : (params : Params) → vnpay_paid params ≡ false → ¬ VnpayReported params
unfolding vnpay_paid
vnpay_unpaid-Reported params h (code, inl without) = ground (
  arith,
  ap (λ t. text_eq t (codes "00")) code,
  ap (λ t. text_eq t []) without,
  text_eq_refl (codes "00"),
  text_eq_refl [],
)
vnpay_unpaid-Reported params h (code, inr good) = ground (
  arith,
  ap (λ t. text_eq t (codes "00")) code,
  ap (λ t. text_eq t (codes "00")) good,
  text_eq_refl (codes "00"),
)

momo_paid-Reported : (values : Params) → momo_paid values ≡ true → MomoReported values
unfolding momo_paid
momo_paid-Reported values h = text_eq-eq (param (codes "resultCode") values) (codes "0") h

momo_unpaid-Reported : (values : Params) → momo_paid values ≡ false → ¬ MomoReported values
unfolding momo_paid
momo_unpaid-Reported values h = text_eq-ne (param (codes "resultCode") values) (codes "0") h

-- What the gateway is told.
abbrev pub Answered : Event → CallbackResult → Type 0
Answered nothing r = (r.success ≡ false) ⊎ (r.already_confirmed ≡ true)
Answered (declines ref) r = r.success ≡ false
Answered (pays ref user plan) r = (r.success ≡ true) × (r.already_confirmed ≡ false)

-- Two states of the shop with the same orders and plans.
abbrev pub Same : Shop → Shop → Type 0
Same s t = ((ref : ℕ) → s.orders ref ≡ t.orders ref) × ((user : ℕ) → s.plans user ≡ t.plans user)

pending-status : (s : PaymentStatus) → is_pending s ≡ true → s ≡ pending
pending-status pending h = refl
pending-status success h = cc
pending-status failed h = cc
pending-status cancelled h = cc

inserted-orders :
    (k ref : ℕ) (new : PaymentTransaction) (rows : Dict PaymentTransaction)
    → status_of (lookup k (insert ref new rows))
      ≡ set_at ref (some new.status) (λ j. status_of (lookup j rows)) k
inserted-orders k ref new rows = elim (Bool-cases (k == ref)) [
  | inl here ↦ rw (lookup-insert k ref new rows, here) refl
  | inr other ↦ rw (lookup-insert k ref new rows, other) refl
]

same-current :
    (user now : ℕ) (db : Db) (rows : Dict PaymentTransaction)
    → get_active_subscription user now (record db { payments = rows })
      ≡ get_active_subscription user now db
unfolding get_active_subscription
same-current user now db rows = refl

bought-plan :
    (user now : ℕ) (new : PartnerSubscription) (db db' : Db)
    → get_active_subscription user now db' ≡ (
        if user == new.user_id
        then if ltb now new.expires_at then some (new.id, new) else none
        else get_active_subscription user now db)
    → plan_of (get_active_subscription user now db')
      ≡ set_at new.user_id
          (if ltb now new.expires_at then some (new.package_id, new.expires_at) else none)
          (λ u. plan_of (get_active_subscription u now db))
          user
bought-plan user now new db db' e = elim (Bool-cases (user == new.user_id)) [
  | inr other ↦ rw (e, other) refl
  | inl mine ↦ elim (Bool-cases (ltb now new.expires_at)) [
    | inl live ↦ rw (e, mine, live) refl
    | inr over ↦ rw (e, mine, over) refl
  ]
]

-- A callback that acts as an event.
pub data Realised (ref : ℕ) (reported : Type 0) (now : ℕ) (db : Db) (o : CallbackResult × Db)
    : Type 0 where
  realised :
      (e : Event)
      → Enabled ref reported now db e
      → Answered e o.0
      → Same (shop now o.1) (apply now e (shop now db))
      → Realised ref reported now db o

pub outcome-Realised :
    (ref : ℕ) (reported : Type 0) (is_paid : Bool) (fresh : Fresh) (db : Db)
    (o : CallbackResult × Db)
    → (is_paid ≡ true → reported)
    → (is_paid ≡ false → ¬ reported)
    → RefsMatch db
    → OneCurrent fresh.now db.subscriptions
    → Outcome ref is_paid fresh db o
    → Realised ref reported fresh.now db o
unfolding shop apply
outcome-Realised ref reported is_paid fresh db _ when_paid otherwise refs v (refused r e) =
    realised nothing always (inl e) (λ k. refl, λ u. refl)
outcome-Realised ref reported is_paid fresh db _ when_paid otherwise refs v
      (repeated r txn e a found final) =
    realised nothing always (inr a) (λ k. refl, λ u. refl)
outcome-Realised ref reported is_paid fresh db _ when_paid otherwise refs v
      (declined r txn result e p found waits) =
    let new : PaymentTransaction = payment_update_fields failed result fresh.now txn in
    realised (declines ref) (unpaid txn (otherwise p) found (pending-status txn.status waits)) e (
      λ k. inserted-orders k ref new db.payments,
      λ u. ap plan_of (same-current u fresh.now db (insert ref new db.payments)),
    )
outcome-Realised ref reported is_paid fresh db _ when_paid otherwise refs v
      (paid_for r txn result pkg db' e a p found waits pk s) =
    let new_sub = new_partner_subscription txn.user_id pkg fresh in
    realised (pays ref txn.user_id (pkg.id, new_sub.expires_at))
      (bought txn pkg (when_paid p) found (pending-status txn.status waits) pk) (e, a)
      (
        λ k. rw (Subscribed-payments db refs _ new_sub _ db' _ s refl) (
            inserted-orders k ref (payment_update_fields success result fresh.now txn) db.payments),
        λ u.
            bought-plan u fresh.now new_sub db db'
              (Subscribed-current fresh.now u new_sub db _ db' refl refl v s),
      )

-- In every history of the payment services, a callback of VNPay and one of MoMo at a later time, with any content and any failing
-- calls, acts on the shop of plans as an event: nothing; or, when the gateway does not report a payment, the pending order that the
-- callback names becomes failed; or, when it reports one, this pending order becomes successful, the order's user has the order's
-- package as plan, from that time on for the days of the package (none if that is over at once), and no other order or plan
-- changes. The gateway is told of success without "already confirmed" exactly with the last.
pub callbacks-Realised :
    (lib : Library) (env : Env) (faults : Faults) (fresh : Fresh) (values : Values)
    (params : Params) (now : ℕ) (db : Db)
    → History lib env now db
    → now ≤ fresh.now
    → Realised
        (text_id (param (codes "vnp_TxnRef") (vnpay_params_from_values values)))
        (VnpayReported (vnpay_params_from_values values))
        fresh.now
        db
        (process_vnpay_callback lib env faults fresh values db)
      × Realised
          (text_id (param (codes "orderId") params))
          (MomoReported params)
          fresh.now
          db
          (process_momo_callback lib env faults fresh params db)
callbacks-Realised lib env faults fresh values params now db h le =
    let (refs, v) = History-OneCurrent lib env now db h in
    let v' = later-OneCurrent now fresh.now _ le v in
    let fields = vnpay_params_from_values values in
    (
      outcome-Realised _ (VnpayReported fields) (vnpay_paid fields) fresh db _
          (vnpay_paid-Reported fields) (vnpay_unpaid-Reported fields) refs v'
          (process_vnpay_callback-Outcome lib env faults fresh values db refs),
      outcome-Realised _ (MomoReported params) (momo_paid params) fresh db _
          (momo_paid-Reported params) (momo_unpaid-Reported params) refs v'
          (process_momo_callback-Outcome lib env faults fresh params db refs),
    )
