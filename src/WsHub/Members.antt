-- ===== src/WsHub/Members.antt =====
-- ws/hub.go: who is in a room and who is a client of a user, after additions and removals.
use link_up_server.Base.{
  ℕ, ◌≡◌, ◌≢◌, inl, inr, refl, ap, Bool, true, false, ◌&&◌, ◌||◌, List, [], ◌∷◌, ◌++◌, arith,
  if◌then◌else◌, Dict, lookup, insert, lookup-insert, lookup-erase, Distinct, insert-Distinct,
  erase-Distinct, has, add, remove, has-add, has-remove, IdSet, ◌==◌, Bool-cases, Option-cases,
  length,
}
use link_up_server.WsHub.Hub.{members, add_to, purge, purge_at, all_clients}

-- in some set of the map
unfoldable pub occurs : ℕ → Dict IdSet → Bool
occurs x [] = false
occurs x ((k, s) ∷ m) = has x s || occurs x m

has-empty : (x : ℕ) (s : IdSet) → (length s == 0) ≡ true → has x s ≡ false
unfolding has
has-empty x [] e = refl
has-empty x (c ∷ s) e = ground arith

pub occurs-purge :
    (x c : ℕ) (m : Dict IdSet) → occurs x (purge c m) ≡ (if x == c then false else occurs x m)
unfolding occurs purge
occurs-purge x c [] = ground arith
occurs-purge x c ((k, s) ∷ m) =
    ground (arith, occurs-purge x c m, has-remove c x s, has-empty x (remove c s))

pub occurs-members : (x k : ℕ) (m : Dict IdSet) → has x (members k m) ≡ true → occurs x m ≡ true
unfolding occurs members lookup has
occurs-members x k [] h = absurd (ground arith)
occurs-members x k ((j, s) ∷ m) h = ground (arith, occurs-members x k m)

occurs-insert :
    (x k : ℕ) (s : IdSet) (m : Dict IdSet)
    → occurs x (insert k s m) ≡ true
    → has x s ≡ false
    → occurs x m ≡ true
unfolding occurs insert has
occurs-insert x k s [] h out = absurd (ground arith)
occurs-insert x k s ((j, t) ∷ m) h out = ground (arith, occurs-insert x k s m)

pub occurs-add_to :
    (x k c : ℕ) (m : Dict IdSet) → occurs x (add_to k c m) ≡ true → x ≢ c → occurs x m ≡ true
unfolding add_to
occurs-add_to x k c m h ne = elim (Bool-cases (has x (members k m))) [
  | inl here ↦ occurs-members x k m here
  | inr out ↦
      occurs-insert x k (add c (members k m)) m h (ground (arith, has-add c x (members k m)))
]

pub members-add_to :
    (x j k c : ℕ) (m : Dict IdSet)
    → has x (members j (add_to k c m)) ≡ (if j == k && x == c then true else has x (members j m))
unfolding members add_to has
members-add_to x j k c m = ground (
  arith,
  lookup-insert j k (add c (members k m)) m,
  has-add c x (members k m),
  ap (λ y. has x (members y m)) {x = j} {y = k},
)

pub members-purge_at :
    (x j k c : ℕ) (m : Dict IdSet)
    → has x (members j (purge_at k c m)) ≡ (if j == k && x == c then false else has x (members j m))
unfolding members purge_at has
members-purge_at x j k c m = elim (Option-cases (lookup k m)) [
  | inl missing ↦
      rw (missing, purge_at) (ground (arith, missing, ap (λ y. lookup y m) {x = j} {y = k}))
  | inr (s, found) ↦
      rw (found, purge_at)
        (ground (
          arith,
          found,
          lookup-erase j k m,
          lookup-insert j k (remove c s) m,
          has-remove c x s,
          has-empty x (remove c s),
          ap (λ y. lookup y m) {x = j} {y = k},
        ))
]

pub purge_at-Distinct : (k c : ℕ) (m : Dict IdSet) → Distinct m → Distinct (purge_at k c m)
unfolding purge_at
purge_at-Distinct k c m h = elim (Option-cases (lookup k m)) [
  | inl missing ↦ rw (missing, purge_at) h
  | inr (s, found) ↦ elim (Bool-cases (length (remove c s) == 0)) [
    | inl empty ↦ rw (found, empty, purge_at) (erase-Distinct k m h)
    | inr some_left ↦ rw (found, some_left, purge_at) (insert-Distinct k (remove c s) m h)
  ]
]

has-append : (x : ℕ) (s t : List ℕ) → has x (s ++ t) ≡ (has x s || has x t)
unfolding has
has-append x [] t = refl
has-append x (c ∷ s) t = ground (arith, has-append x s t)

pub has-all_clients :
    (x : ℕ) (m : Dict IdSet)
    → Distinct m
    → has x (all_clients m) ≡ true
    → (u : ℕ) × (has x (members u m) ≡ true)
unfolding all_clients members lookup has
has-all_clients x [] d h = absurd (ground arith)
has-all_clients x ((k, s) ∷ m) d h = elim (Bool-cases (has x s)) [
  | inl here ↦ (k, ground arith)
  | inr out ↦
      let (u, found) = has-all_clients x m d.1 (ground (arith, has-append x s (all_clients m))) in
      (u, ground (arith, found, d.0, ap (λ y. lookup y m) {x = u} {y = k}))
]
