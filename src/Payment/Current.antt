-- ===== src/Payment/Current.antt =====
-- repository/package.repository.go: the current subscriptions of a user, in the writes to the
-- table of subscriptions.
use link_up_server.Base.{
  ℕ, ◌≡◌, ◌≤◌, ◌⊎◌, inl, inr, subst, sym, ◌∙◌, true, false, Option, none, some, arith, ◌==◌, Dict,
  lookup, insert, lookup-insert, insert-Distinct, Distinct, FirstRow, first_row-FirstRow,
  Bool-cases, Option-cases,
}
use link_up_server.Payment.Package.{
  Db, PartnerSubscription, cancelled, is_current, get_active_subscription, cancel_subscription,
  change_subscription,
}
use link_up_server.Payment.Outcomes.{Subscribed, rolled_back, subscribed}

-- No id stands twice, and at a time a user has at most one current subscription.
pub record OneCurrent (now : ℕ) (subs : Dict PartnerSubscription) : Type 0 where
  pub keys : Distinct subs
  pub one :
      (user i j : ℕ) (s t : PartnerSubscription)
      → lookup i subs ≡ some s
      → lookup j subs ≡ some t
      → is_current user now s ≡ true
      → is_current user now t ≡ true
      → i ≡ j

still-current :
    (user now now' : ℕ) (s : PartnerSubscription)
    → now ≤ now'
    → is_current user now' s ≡ true
    → is_current user now s ≡ true
still-current user now now' s le h = ground arith

pub later-OneCurrent :
    (now now' : ℕ) (subs : Dict PartnerSubscription)
    → now ≤ now'
    → OneCurrent now subs
    → OneCurrent now' subs
later-OneCurrent now now' subs le v = record {
  keys = v.keys;
  one = λ user i j s t at at' h k.
      v.one user i j s t at at' (still-current user now now' s le h)
        (still-current user now now' t le k);
}

-- A row that is current was current in another table.
abbrev pub WasCurrent : ℕ → ℕ → ℕ → Dict PartnerSubscription → Type 0
WasCurrent now user i subs =
    (t : PartnerSubscription) × (lookup i subs ≡ some t) × (is_current user now t ≡ true)

pub fewer-OneCurrent :
    (now : ℕ) (subs subs' : Dict PartnerSubscription)
    → OneCurrent now subs
    → Distinct subs'
    → ((user i : ℕ) (s : PartnerSubscription)
        → lookup i subs' ≡ some s
        → is_current user now s ≡ true
        → WasCurrent now user i subs)
    → OneCurrent now subs'
fewer-OneCurrent now subs subs' v keys old = record {
  keys = keys;
  one = λ user i j s t at at' h k.
      let (s', was, cur) = old user i s at h in
      let (t', was', cur') = old user j t at' k in v.one user i j s' t' was was' cur cur';
}

-- A row is written over another one, and is current only if that one was.
insert-WasCurrent :
    (now id user i : ℕ) (new sub s : PartnerSubscription) (subs : Dict PartnerSubscription)
    → lookup id subs ≡ some sub
    → (is_current user now new ≡ true → is_current user now sub ≡ true)
    → lookup i (insert id new subs) ≡ some s
    → is_current user now s ≡ true
    → WasCurrent now user i subs
insert-WasCurrent now id user i new sub s subs found fewer at h = elim (Bool-cases (i == id)) [
  | inl here ↦
      let same : new ≡ s = ground (arith, lookup-insert i id new subs) in
      (sub, ground arith, fewer (subst (λ x. is_current user now x ≡ true) (sym same) h))
  | inr other ↦ (s, ground (arith, lookup-insert i id new subs), h)
]

pub change-OneCurrent :
    (now id : ℕ) (f : PartnerSubscription → PartnerSubscription) (db : Db)
    → ((user : ℕ) (s : PartnerSubscription)
        → is_current user now (f s) ≡ true
        → is_current user now s ≡ true)
    → OneCurrent now db.subscriptions
    → OneCurrent now (change_subscription id f db).subscriptions
unfolding change_subscription
change-OneCurrent now id f db fewer v = elim (Option-cases (lookup id db.subscriptions)) [
  | inl missing ↦ rw (missing, change_subscription) v
  | inr (sub, found) ↦
      rw (found, change_subscription)
        (fewer-OneCurrent now db.subscriptions _ v (insert-Distinct id (f sub) _ v.keys)
          (λ user i s at h.
            insert-WasCurrent now id user i (f sub) sub s _ found (fewer user sub) at h))
]

-- What `First` gives, and no current row of the user but that one.
abbrev pub Latest : ℕ → ℕ → Dict PartnerSubscription → Option (ℕ × PartnerSubscription) → Type 0
Latest user now subs none =
    (i : ℕ) (s : PartnerSubscription) → lookup i subs ≡ some s → is_current user now s ≡ false
Latest user now subs (some (i, s)) =
    (lookup i subs ≡ some s)
    × (is_current user now s ≡ true)
    × ((j : ℕ) (t : PartnerSubscription)
        → lookup j subs ≡ some t
        → is_current user now t ≡ true
        → j ≡ i)

pub get_active_subscription-Latest :
    (user now : ℕ) (db : Db)
    → OneCurrent now db.subscriptions
    → Latest user now db.subscriptions (get_active_subscription user now db)
unfolding get_active_subscription
get_active_subscription-Latest user now db v =
    latest _ (first_row-FirstRow (is_current user now) db.subscriptions v.keys)
  where
    latest :
        (o : Option (ℕ × PartnerSubscription))
        → FirstRow (is_current user now) db.subscriptions o
        → Latest user now db.subscriptions o
    latest none f = f
    latest (some (i, s)) (at, on, least) = (at, on, λ j t at' h. v.one user j i t s at' at h on)

-- After the old subscription is cancelled, the user has no current one.
pub cancel-None :
    (user now : ℕ) (subs : Dict PartnerSubscription) (o : Option (ℕ × PartnerSubscription))
    → Latest user now subs o
    → Latest user now (cancel_subscription o subs) none
cancel-None user now subs none none_yet j t found = none_yet j t found
cancel-None user now subs (some (i, s)) (at, on, only) j t found =
    let gone : PartnerSubscription = record s { status = cancelled } in
    let off : is_current user now gone ≡ false = ground arith in
    elim (Bool-cases (j == i)) [
      | inl here ↦
          let same : gone ≡ t = ground (arith, lookup-insert j i gone subs) in
          subst (λ x. is_current user now x ≡ false) same off
      | inr other ↦ ground (arith, lookup-insert j i gone subs, only j t)
    ]

pub cancel-OneCurrent :
    (user now : ℕ) (subs : Dict PartnerSubscription) (o : Option (ℕ × PartnerSubscription))
    → Latest user now subs o
    → OneCurrent now subs
    → OneCurrent now (cancel_subscription o subs)
cancel-OneCurrent user now subs none latest v = v
cancel-OneCurrent user now subs (some (i, s)) (at, on, only) v =
    let gone : PartnerSubscription = record s { status = cancelled } in
    fewer-OneCurrent now subs _ v (insert-Distinct i gone subs v.keys) (λ user' j t found h.
      insert-WasCurrent now i user' j gone s t subs at (λ k. absurd (ground arith)) found h)

module _ (now : ℕ) (new : PartnerSubscription) (subs : Dict PartnerSubscription)
    (free : lookup new.id subs ≡ none) (none_yet : Latest new.user_id now subs none) where
  pub written_over :
      (i : ℕ) (s : PartnerSubscription)
      → lookup i (insert new.id new subs) ≡ some s
      → (lookup i subs ≡ some s) ⊎ ((i ≡ new.id) × (s ≡ new))
  written_over i s at = elim (Bool-cases (i == new.id)) [
    | inl here ↦ inr (ground arith, ground (arith, lookup-insert i new.id new subs))
    | inr other ↦ inl (ground (arith, lookup-insert i new.id new subs))
  ]

  clash :
      (user j : ℕ) (s t : PartnerSubscription)
      → s ≡ new
      → is_current user now s ≡ true
      → lookup j subs ≡ some t
      → is_current user now t ≡ true
      → ⊥
  clash user j s t e h at k =
      let mine : is_current user now new ≡ true = subst (λ x. is_current user now x ≡ true) e h in
      let same : user ≡ new.user_id = ground arith in
      let off : is_current user now t ≡ false =
        subst (λ u. is_current u now t ≡ false) (sym same) (none_yet j t at) in
      ground arith

  -- A new subscription of a user who has no current one.
  pub new-OneCurrent : OneCurrent now subs → OneCurrent now (insert new.id new subs)
  new-OneCurrent v = record {
    keys = insert-Distinct new.id new subs v.keys;
    one = λ user i j s t at at' h k. elim (written_over i s at) [
      | inl old ↦ elim (written_over j t at') [
        | inl old' ↦ v.one user i j s t old old' h k
        | inr (here, e) ↦ absurd (clash user i t s e k old h)
      ]
      | inr (here, e) ↦ elim (written_over j t at') [
        | inl old' ↦ absurd (clash user j s t e h old' k)
        | inr (here', e') ↦ here ∙ sym here'
      ]
    ];
  }

-- subscribeWithTx with the subscription that the user has at the time.
pub Subscribed-OneCurrent :
    (now : ℕ) (new : PartnerSubscription) (db0 db db' : Db) (o : Option Db)
    → db.subscriptions ≡ db0.subscriptions
    → OneCurrent now db0.subscriptions
    → Subscribed (get_active_subscription new.user_id now db0) new db o
    → o ≡ some db'
    → OneCurrent now db'.subscriptions
Subscribed-OneCurrent now new db0 db db' _ same v rolled_back e = cc
Subscribed-OneCurrent now new db0 db db' _ same v (subscribed uuid rows free role) e =
    let old = get_active_subscription new.user_id now db0 in
    let latest = get_active_subscription-Latest new.user_id now db0 v in
    let rest = cancel_subscription old db0.subscriptions in
    let kept =
      new-OneCurrent now new rest (rw same at free)
        (cancel-None new.user_id now db0.subscriptions old latest)
        (cancel-OneCurrent new.user_id now db0.subscriptions old latest v) in
    let written : insert new.id new (cancel_subscription old db.subscriptions) ≡ db'.subscriptions =
      ground arith in
    subst (OneCurrent now) written (rw same kept)
