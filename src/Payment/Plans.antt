-- ===== src/Payment/Plans.antt =====
-- repository/package.repository.go: which subscription GetActiveSubscription finds after
-- subscribeWithTx.
use link_up_server.Base.{
  ℕ, ◌≡◌, inl, inr, refl, subst, sym, true, false, Option, none, some, arith, ltb, ◌==◌,
  if◌then◌else◌, Dict, lookup, insert, lookup-insert, Bool-cases,
}
use link_up_server.Payment.Package.{
  Db, PartnerSubscription, active, cancelled, is_current, get_active_subscription,
  cancel_subscription,
}
use link_up_server.Payment.Outcomes.{Subscribed, rolled_back, subscribed}
use link_up_server.Payment.Current.{
  OneCurrent, Latest, get_active_subscription-Latest, cancel-None, Subscribed-OneCurrent,
  written_over,
}

same_row :
    (s t : PartnerSubscription) (i j : ℕ) (subs : Dict PartnerSubscription)
    → j ≡ i
    → lookup i subs ≡ some s
    → lookup j subs ≡ some t
    → ◌≡◌ {A = Option (ℕ × PartnerSubscription)} (some (i, s)) (some (j, t))
same_row s t i j subs e at at' = ground arith

-- There is one answer to the query.
Latest-unique :
    (user now : ℕ) (subs : Dict PartnerSubscription) (o o' : Option (ℕ × PartnerSubscription))
    → Latest user now subs o
    → Latest user now subs o'
    → o ≡ o'
Latest-unique user now subs none none l l' = refl
Latest-unique user now subs none (some (j, t)) l (at, on, only) =
    let off : is_current user now t ≡ false = l j t at in absurd (ground arith)
Latest-unique user now subs (some (i, s)) none (at, on, only) l' =
    let off : is_current user now s ≡ false = l' i s at in absurd (ground arith)
Latest-unique user now subs (some (i, s)) (some (j, t)) (at, on, only) (at', on', only') =
    same_row s t i j subs (only j t at' on') at at'

module _ (now : ℕ) (new : PartnerSubscription) (subs : Dict PartnerSubscription)
    (free : lookup new.id subs ≡ none) (none_yet : Latest new.user_id now subs none) where
  mine-Latest :
      is_current new.user_id now new ≡ true
      → Latest new.user_id now (insert new.id new subs) (some (new.id, new))
  mine-Latest on = (
    ground (arith, lookup-insert new.id new.id new subs),
    on,
    λ j t at h. elim (written_over now new subs free none_yet j t at) [
      | inr (here, e) ↦ here
      | inl old ↦
          let off : is_current new.user_id now t ≡ false = none_yet j t old in absurd (ground arith)
    ],
  )

  over-Latest :
      is_current new.user_id now new ≡ false → Latest new.user_id now (insert new.id new subs) none
  over-Latest off j t at = elim (written_over now new subs free none_yet j t at) [
    | inr (here, e) ↦ subst (λ x. is_current new.user_id now x ≡ false) (sym e) off
    | inl old ↦ none_yet j t old
  ]

  other_some-Latest :
      (user i : ℕ) (s : PartnerSubscription)
      → (user == new.user_id) ≡ false
      → Latest user now subs (some (i, s))
      → Latest user now (insert new.id new subs) (some (i, s))
  other_some-Latest user i s other (at, on, only) = (
    ground (arith, lookup-insert i new.id new subs),
    on,
    λ j t found h. elim (written_over now new subs free none_yet j t found) [
      | inr (here, e) ↦
          let off : is_current user now new ≡ false = ground arith in
          let off' : is_current user now t ≡ false =
            subst (λ x. is_current user now x ≡ false) (sym e) off in
          absurd (ground arith)
      | inl old ↦ only j t old h
    ],
  )

  -- The subscriptions of the others.
  other-Latest :
      (user : ℕ) (o : Option (ℕ × PartnerSubscription))
      → (user == new.user_id) ≡ false
      → Latest user now subs o
      → Latest user now (insert new.id new subs) o
  other-Latest user none other l = λ j t at. elim (written_over now new subs free none_yet j t at) [
    | inr (here, e) ↦
        let off : is_current user now new ≡ false = ground arith in
        subst (λ x. is_current user now x ≡ false) (sym e) off
    | inl old ↦ l j t old
  ]
  other-Latest user (some (i, s)) other l = other_some-Latest user i s other l

-- A row that is current after a cancellation was there before.
gone_row :
    (user now i j : ℕ) (s t : PartnerSubscription) (subs : Dict PartnerSubscription)
    → lookup j (insert i (record s { status = cancelled }) subs) ≡ some t
    → is_current user now t ≡ true
    → lookup j subs ≡ some t
gone_row user now i j s t subs found h =
    let gone : PartnerSubscription = record s { status = cancelled } in
    elim (Bool-cases (j == i)) [
      | inl here ↦
          let same : gone ≡ t = ground (arith, lookup-insert j i gone subs) in
          let on : is_current user now gone ≡ true =
            subst (λ x. is_current user now x ≡ true) (sym same) h in
          absurd (ground arith)
      | inr other ↦ ground (arith, lookup-insert j i gone subs)
    ]

same_user :
    (user mine now : ℕ) (s : PartnerSubscription)
    → is_current user now s ≡ true
    → is_current mine now s ≡ true
    → (user == mine) ≡ true
same_user user mine now s h k = ground arith

cancel-other-Latest :
    (user mine now : ℕ) (subs : Dict PartnerSubscription) (o p : Option (ℕ × PartnerSubscription))
    → (user == mine) ≡ false
    → Latest mine now subs p
    → Latest user now subs o
    → Latest user now (cancel_subscription p subs) o
cancel-other-Latest user mine now subs o none other lp l = l
cancel-other-Latest user mine now subs none (some (i, s)) other (at, on, only) l = λ j t found.
    elim (Bool-cases (is_current user now t)) [
      | inr off ↦ off
      | inl cur ↦ l j t (gone_row user now i j s t subs found cur)
    ]
cancel-other-Latest user mine now subs (some (k, x)) (some (i, s)) other (at, on, only)
      (at', on', only') =
    let gone : PartnerSubscription = record s { status = cancelled } in
    let here : lookup k (insert i gone subs) ≡ some x = elim (Bool-cases (k == i)) [
      | inr apart ↦ ground (arith, lookup-insert k i gone subs)
      | inl same ↦
          let e : s ≡ x = ground arith in
          let mine' : is_current mine now x ≡ true =
            subst (λ y. is_current mine now y ≡ true) e on in
          absurd (ground (arith, same_user user mine now x on' mine'))
    ] in
    (here, on', λ j t found h. only' j t (gone_row user now i j s t subs found h) h)

Subscribed-subscriptions :
    (a : Option (ℕ × PartnerSubscription)) (new : PartnerSubscription) (db db' : Db) (o : Option Db)
    → Subscribed a new db o
    → o ≡ some db'
    → (db'.subscriptions ≡ insert new.id new (cancel_subscription a db.subscriptions))
      × (lookup new.id (cancel_subscription a db.subscriptions) ≡ none)
Subscribed-subscriptions a new db db' _ rolled_back e = cc
Subscribed-subscriptions a new db db' _ (subscribed uuid rows free role) e = (ground arith, free)

-- What the query finds after subscribeWithTx.
abbrev found_after : ℕ → ℕ → PartnerSubscription → Db → Option (ℕ × PartnerSubscription)
found_after now user new db =
    if user == new.user_id
    then if ltb now new.expires_at then some (new.id, new) else none
    else get_active_subscription user now db

found_after-Latest :
    (now user : ℕ) (new : PartnerSubscription) (db : Db)
    → let rest =
        cancel_subscription (get_active_subscription new.user_id now db) db.subscriptions in
      new.status ≡ active
      → OneCurrent now db.subscriptions
      → lookup new.id rest ≡ none
      → Latest user now (insert new.id new rest) (found_after now user new db)
found_after-Latest now user new db act v free =
    let old = get_active_subscription new.user_id now db in
    let latest = get_active_subscription-Latest new.user_id now db v in
    let rest = cancel_subscription old db.subscriptions in
    let none_yet = cancel-None new.user_id now db.subscriptions old latest in
    elim (Bool-cases (user == new.user_id)) [
      | inr other ↦ rw other (
          other-Latest now new rest free none_yet user (get_active_subscription user now db) other (
            cancel-other-Latest user new.user_id now db.subscriptions _ old other latest
              (get_active_subscription-Latest user now db v)))
      | inl same ↦
          let e : new.user_id ≡ user = ground arith in
          elim (Bool-cases (ltb now new.expires_at)) [
            | inl live ↦
                rw (same, live)
                  (subst (λ u. Latest u now (insert new.id new rest) (some (new.id, new))) e
                    (mine-Latest now new rest free none_yet (ground arith)))
            | inr over ↦
                rw (same, over)
                  (subst (λ u. Latest u now (insert new.id new rest) none) e
                    (over-Latest now new rest free none_yet (ground arith)))
          ]
    ]

-- What GetActiveSubscription finds after subscribeWithTx: the new subscription for its user, if it ends later
-- than now, and for the others what it found before.
pub Subscribed-current :
    (now user : ℕ) (new : PartnerSubscription) (db0 db db' : Db)
    → new.status ≡ active
    → db.subscriptions ≡ db0.subscriptions
    → OneCurrent now db0.subscriptions
    → Subscribed (get_active_subscription new.user_id now db0) new db (some db')
    → get_active_subscription user now db' ≡ (
        if user == new.user_id
        then if ltb now new.expires_at then some (new.id, new) else none
        else get_active_subscription user now db0)
Subscribed-current now user new db0 db db' act same v s =
    let old = get_active_subscription new.user_id now db0 in
    let v' = Subscribed-OneCurrent now new db0 db db' _ same v s refl in
    let (e, free) = Subscribed-subscriptions old new db db' _ s refl in
    let expected = found_after-Latest now user new db0 act v (rw same at free) in
    let table : insert new.id new (cancel_subscription old db0.subscriptions) ≡ db'.subscriptions =
      sym (rw same at e) in
    Latest-unique user now db'.subscriptions _ _ (get_active_subscription-Latest user now db' v')
      (subst (λ d. Latest user now d (found_after now user new db0)) table expected)
