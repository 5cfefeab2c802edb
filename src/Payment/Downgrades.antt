-- ===== src/Payment/Downgrades.antt =====
-- services/package.service.go: the role of a user whose old subscription has expired while a new
-- one runs.
use link_up_server.Base.{
  ℕ, ◌≡◌, ◌⊎◌, inl, inr, sym, ◌∙◌, subst, Bool, true, false, some, List, [], ◌∷◌, arith, Distinct,
  lookup, updated, lookup-update_rows,
}
use link_up_server.Access.Roles.{user_role, contains_role}
use link_up_server.Payment.Package.{Db, PartnerSubscription, is_current, is_overdue, is_partner_row}
use link_up_server.Payment.Service.{
  expire_one, expire_each, find_expired_subscriptions, process_expired_subscriptions,
}
use link_up_server.Payment.Rounds.{
  NoPartner, downgraded-row, Rounded, rounded, expire_one-Rounded, Lists, Lacks, running-Lacks,
  overdue-Lists, expired_other,
}

round-NoPartner :
    (user id mine : ℕ) (db db' : Db)
    → Rounded mine id db db'
    → (NoPartner user db.user_roles ⊎ (mine ≡ user))
    → NoPartner user db'.user_roles
round-NoPartner user id mine db db' (rounded names rows subs) h i row found =
    let at : updated (is_partner_row mine) (λ r. record r { role = user_role })
          (lookup i db.user_roles)
        ≡ some row =
      sym (lookup-update_rows (is_partner_row mine) _ i db.user_roles) ∙ (rw rows at found) in
    downgraded-row user mine row (lookup i db.user_roles)
      (λ r e off. elim h [
        | inl before ↦ before i r e
        | inr same ↦ subst (λ u. is_partner_row u r ≡ false) same off
      ])
      at

-- No call fails.
abbrev pub never : ℕ → Bool
never id = false

each-NoPartner :
    (user : ℕ) (list : List (ℕ × ℕ)) (db : Db)
    → contains_role db.role_names user_role ≡ true
    → (NoPartner user db.user_roles ⊎ Lists user list)
    → NoPartner user (expire_each never never list db).1.user_roles
unfolding expire_each
each-NoPartner user [] db roles (inl before) = before
each-NoPartner user [] db roles (inr listed) = absurd listed
each-NoPartner user ((id, mine) ∷ list) db roles h =
    let first = expire_one-Rounded id mine db roles in
    each-NoPartner user list (expire_one false false (id, mine) db).1 (names-kept first) (elim h [
      | inl before ↦ inl (round-NoPartner user id mine db _ first (inl before))
      | inr listed ↦ elim listed [
        | inl same ↦ inl (round-NoPartner user id mine db _ first (inr same))
        | inr rest ↦ inr rest
      ]
    ])
  where
    names-kept :
        Rounded mine id db (expire_one false false (id, mine) db).1
        → contains_role (expire_one false false (id, mine) db).1.role_names user_role ≡ true
    names-kept (rounded names rows subs) = rw names roles

each_keeps :
    (other : ℕ) (sub : PartnerSubscription) (list : List (ℕ × ℕ)) (db : Db)
    → contains_role db.role_names user_role ≡ true
    → Lacks other list
    → lookup other db.subscriptions ≡ some sub
    → lookup other (expire_each never never list db).1.subscriptions ≡ some sub
unfolding expire_each
each_keeps other sub [] db roles lacks at = at
each_keeps other sub ((id, mine) ∷ list) db roles lacks at =
    let (names', at') = after_round (expire_one-Rounded id mine db roles) in
    each_keeps other sub list (expire_one false false (id, mine) db).1 names' lacks.1 at'
  where
    after_round :
        Rounded mine id db (expire_one false false (id, mine) db).1
        → (contains_role (expire_one false false (id, mine) db).1.role_names user_role ≡ true)
          × (lookup other (expire_one false false (id, mine) db).1.subscriptions ≡ some sub)
    after_round (rounded names rows subs) =
        (rw names roles, rw subs (expired_other id other sub db at lacks.0))

-- When a user has a subscription that is overdue but still marked active, and also a current one, then a run of ProcessExpiredSubscriptions,
-- no call of which fails, leaves the current one as it is and takes the role PARTNER away: no platform row of the user
-- has it afterwards. The conditions are that no id of a subscription stands twice and that the role USER exists.
pub process_expired_subscriptions-takes_role :
    (now id other : ℕ) (old sub : PartnerSubscription) (db : Db)
    → Distinct db.subscriptions
    → contains_role db.role_names user_role ≡ true
    → lookup id db.subscriptions ≡ some old
    → is_overdue now old ≡ true
    → lookup other db.subscriptions ≡ some sub
    → is_current old.user_id now sub ≡ true
    → let db' = (process_expired_subscriptions false never never now db).1 in
      (lookup other db'.subscriptions ≡ some sub) × NoPartner old.user_id db'.user_roles
unfolding process_expired_subscriptions
process_expired_subscriptions-takes_role now id other old sub db keys roles at over at' current =
    let list = find_expired_subscriptions now db.subscriptions in
    (
      each_keeps other sub list db roles
          (running-Lacks now other sub db.subscriptions keys at' (ground arith)) at',
      each-NoPartner old.user_id list db roles
          (inr (overdue-Lists now id old db.subscriptions at over)),
    )
