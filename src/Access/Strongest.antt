-- ===== src/Access/Strongest.antt =====
-- middlewares/rbac.middleware.go: the role that counts, which the loop of effectiveRole finds.
use link_up_server.Base.{
  ℕ, ◌≤◌, ◌≡◌, ◌⊎◌, inl, inr, refl, sym, ap, ◌∙◌, subst, Bool, true, false, ◌&&◌, ◌||◌, Option,
  none, some, List, [], ◌∷◌, arith, Bool-cases,
}
use link_up_server.Text.{Text, text_eq, text_eq-eq, text_eq_refl}
use link_up_server.Access.Roles.{role_rank, contains_role, is_better, best_role, effective_role}

pub first_or_rest :
    (r r' : Text) (rs : List Text)
    → contains_role (r ∷ rs) r' ≡ true
    → (r ≡ r') ⊎ (contains_role rs r' ≡ true)
unfolding contains_role
first_or_rest r r' rs h = elim (Bool-cases (text_eq r r')) [
  | inl same ↦ inl (text_eq-eq r r' same)
  | inr other ↦ inr (ground arith)
]

pub contains_role-first : (r r' : Text) (rs : List Text) → r ≡ r' → contains_role (r ∷ rs) r' ≡ true
unfolding contains_role
contains_role-first r r' rs e =
    subst (λ x. (text_eq r x || contains_role rs x) ≡ true) e (rw (text_eq_refl r) refl)

pub contains_role-rest :
    (r r' : Text) (rs : List Text) → contains_role rs r' ≡ true → contains_role (r ∷ rs) r' ≡ true
unfolding contains_role
contains_role-rest r r' rs h = ground arith

-- What the loop finds, starting from the best role so far.
abbrev pub Finds : List Text → List Text → Option Text → Option Text → Type 0
Finds rs allowed best none =
    (best ≡ none) × ((r : Text) → contains_role rs r ≡ true → contains_role allowed r ≡ false)
Finds rs allowed best (some b) =
    ((best ≡ some b) ⊎ ((contains_role rs b ≡ true) × (contains_role allowed b ≡ true)))
    × ((r : Text)
        → contains_role rs r ≡ true
        → contains_role allowed r ≡ true
        → role_rank r ≤ role_rank b)
    × ((c : Text) → best ≡ some c → role_rank c ≤ role_rank b)

pub worse :
    (r c : Text) (best : Option Text) (n : ℕ)
    → is_better r best ≡ true
    → best ≡ some c
    → role_rank r ≤ n
    → role_rank c ≤ n
worse r c none n better e le = absurd (ground arith)
worse r c (some d) n better e le =
    let same : d ≡ c = ground arith in subst (λ x. role_rank x ≤ n) same (ground arith)

pub first_refused :
    (r : Text) (b : Bool) (best : Option Text)
    → best ≡ none
    → (b && is_better r best) ≡ false
    → b ≡ false
first_refused r b none e h = ground arith
first_refused r b (some c) e h = absurd (ground arith)

pub no_higher :
    (r b : Text) (in_allowed : Bool) (best : Option Text)
    → (in_allowed && is_better r best) ≡ false
    → in_allowed ≡ true
    → ((c : Text) → best ≡ some c → role_rank c ≤ role_rank b)
    → role_rank r ≤ role_rank b
no_higher r b in_allowed none h a top = absurd (ground arith)
no_higher r b in_allowed (some c) h a top = ground (arith, top c refl)

pub Finds-take :
    (r : Text) (rs allowed : List Text) (best o : Option Text)
    → contains_role allowed r ≡ true
    → is_better r best ≡ true
    → Finds rs allowed (some r) o
    → Finds (r ∷ rs) allowed best o
unfolding contains_role
Finds-take r rs allowed best none a better f = absurd (ground (arith, f.0))
Finds-take r rs allowed best (some b) a better (from, most, top) = (
  inr (elim from [
    | inl e ↦
        let same : r ≡ b = ground arith in
        (contains_role-first r b rs same, subst (λ x. contains_role allowed x ≡ true) same a)
    | inr (x, y) ↦ (contains_role-rest r b rs x, y)
  ]),
  λ r' h h'. elim (first_or_rest r r' rs h) [
    | inl e ↦ subst (λ x. role_rank x ≤ role_rank b) e (top r refl)
    | inr later ↦ most r' later h'
  ],
  λ c e. worse r c best (role_rank b) better e (top r refl),
)

pub Finds-skip :
    (r : Text) (rs allowed : List Text) (best o : Option Text)
    → (contains_role allowed r && is_better r best) ≡ false
    → Finds rs allowed best o
    → Finds (r ∷ rs) allowed best o
Finds-skip r rs allowed best none no_better f = (
  f.0,
  λ r' h. elim (first_or_rest r r' rs h) [
    | inl e ↦
        subst (λ x. contains_role allowed x ≡ false) e
          (first_refused r (contains_role allowed r) best f.0 no_better)
    | inr later ↦ f.1 r' later
  ],
)
Finds-skip r rs allowed best (some b) no_better (from, most, top) = (
  elim from [ inl e ↦ inl e | inr (x, y) ↦ inr (contains_role-rest r b rs x, y) ],
  λ r' h h'. elim (first_or_rest r r' rs h) [
    | inl e ↦
        subst (λ x. role_rank x ≤ role_rank b) e
          (no_higher r b (contains_role allowed r) best no_better
            (sym (ap (contains_role allowed) (sym e)) ∙ h') top)
    | inr later ↦ most r' later h'
  ],
  top,
)

pub best_role-Finds :
    (rs allowed : List Text) (best : Option Text)
    → Finds rs allowed best (best_role rs allowed best)
unfolding best_role contains_role
best_role-Finds [] allowed none = (refl, λ r h. absurd (ground arith))
best_role-Finds [] allowed (some b) = (
  inl refl,
  λ r h. absurd (ground arith),
  λ c e.
      let same : b ≡ c = ground arith in subst (λ x. role_rank x ≤ role_rank b) same (ground arith),
)
best_role-Finds (r ∷ rs) allowed best =
    elim (Bool-cases (contains_role allowed r && is_better r best)) [
      | inl take ↦
          rw (take, best_role)
            (Finds-take r rs allowed best (best_role rs allowed (some r)) (ground arith)
              (ground arith) (best_role-Finds rs allowed (some r)))
      | inr skip ↦
          rw (skip, best_role)
            (Finds-skip r rs allowed best (best_role rs allowed best) skip
              (best_role-Finds rs allowed best))
    ]

-- The strongest of the roles that are allowed, or that none is.
abbrev pub Strongest : List Text → List Text → Option Text → Type 0
Strongest roles allowed none =
    (r : Text) → contains_role roles r ≡ true → contains_role allowed r ≡ false
Strongest roles allowed (some b) =
    (contains_role roles b ≡ true)
    × (contains_role allowed b ≡ true)
    × ((r : Text)
        → contains_role roles r ≡ true
        → contains_role allowed r ≡ true
        → role_rank r ≤ role_rank b)

pub Finds-Strongest :
    (roles allowed : List Text) (o : Option Text)
    → Finds roles allowed none o
    → Strongest roles allowed o
Finds-Strongest roles allowed none f = f.1
Finds-Strongest roles allowed (some b) (inl e, most, top) = absurd (ground arith)
Finds-Strongest roles allowed (some b) (inr (x, y), most, top) = (x, y, most)

-- The effective role of a user is one of the user's roles that the route allows, and no such role has a higher rank; there is
-- none exactly if the route allows none of the user's roles.
pub effective_role-Strongest :
    (roles allowed : List Text) → Strongest roles allowed (effective_role roles allowed)
unfolding effective_role
effective_role-Strongest roles allowed =
    Finds-Strongest roles allowed (best_role roles allowed none)
      (best_role-Finds roles allowed none)
