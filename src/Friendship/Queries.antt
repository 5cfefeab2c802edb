-- ===== src/Friendship/Queries.antt =====
-- repository/friend.repository.go: what the queries on the rows find.
use link_up_server.Base.{
  ℕ, ◌≡◌, ◌<◌, inl, inr, refl, subst, Bool, true, false, Option, none, some, [], ◌∷◌, arith, ltb,
  ◌==◌, Dict, lookup, insert, Distinct, Bool-cases,
}
use link_up_server.Friendship.Table.{Friend, least, first_where, any_where, remove_where}

-- The row that a query finds is in the table and has the property.
abbrev pub Found : (Friend → Bool) → Dict Friend → Option Friend → Type 0
Found p d none = (i : ℕ) (f : Friend) → lookup i d ≡ some f → p f ≡ false
Found p d (some f) = (i : ℕ) × (lookup i d ≡ some f) × (p f ≡ true)

least-Found :
    (p : Friend → Bool) (j : ℕ) (g : Friend) (d : Dict Friend) (o : Option Friend)
    → lookup j d ≡ none
    → p g ≡ true
    → Found p d o
    → Found p ((j, g) ∷ d) (least g o)
unfolding lookup
least-Found p j g d none new on f = (j, ground arith, on)
least-Found p j g d (some h) new on (i, at, q) = elim (Bool-cases (ltb h.id g.id)) [
  | inl lower ↦ rw lower (i, ground arith, q)
  | inr higher ↦ rw higher (j, ground arith, on)
]

skip-Found :
    (p : Friend → Bool) (j : ℕ) (g : Friend) (d : Dict Friend) (o : Option Friend)
    → lookup j d ≡ none
    → p g ≡ false
    → Found p d o
    → Found p ((j, g) ∷ d) o
unfolding lookup
skip-Found p j g d none new off f = λ i h at. elim (Bool-cases (i == j)) [
  | inl here ↦ let same : g ≡ h = ground arith in subst (λ x. p x ≡ false) same off
  | inr other ↦ f i h (ground arith)
]
skip-Found p j g d (some h) new off (i, at, q) = (i, ground arith, q)

pub first_where-Found :
    (p : Friend → Bool) (d : Dict Friend) → Distinct d → Found p d (first_where p d)
unfolding first_where lookup
first_where-Found p [] u = λ i f at. absurd (ground arith)
first_where-Found p ((j, g) ∷ d) u = elim (Bool-cases (p g)) [
  | inl on ↦
      rw (on, first_where)
        (least-Found p j g d (first_where p d) u.0 on (first_where-Found p d u.1))
  | inr off ↦
      rw (off, first_where)
        (skip-Found p j g d (first_where p d) u.0 off (first_where-Found p d u.1))
]

pub lookup-remove_where :
    (p : Friend → Bool) (d : Dict Friend) (i : ℕ) (f : Friend)
    → Distinct d
    → lookup i (remove_where p d) ≡ some f
    → lookup i d ≡ some f
unfolding remove_where lookup
lookup-remove_where p [] i f u at = absurd (ground arith)
lookup-remove_where p ((j, g) ∷ d) i f u at = ground (arith, lookup-remove_where p d i f u.1)

remove_where-none :
    (p : Friend → Bool) (d : Dict Friend) (i : ℕ)
    → lookup i d ≡ none
    → lookup i (remove_where p d) ≡ none
unfolding remove_where lookup
remove_where-none p [] i e = refl
remove_where-none p ((j, g) ∷ d) i e = ground (arith, remove_where-none p d i)

pub remove_where-Distinct :
    (p : Friend → Bool) (d : Dict Friend) → Distinct d → Distinct (remove_where p d)
unfolding remove_where
remove_where-Distinct p [] u = tt
remove_where-Distinct p ((j, g) ∷ d) u = elim (Bool-cases (p g)) [
  | inl on ↦ rw (on, remove_where) (remove_where-Distinct p d u.1)
  | inr off ↦ rw (off, remove_where) (remove_where-none p d j u.0, remove_where-Distinct p d u.1)
]

pub any_where-remove_where :
    (p : Friend → Bool) (d : Dict Friend) → any_where p (remove_where p d) ≡ false
unfolding any_where remove_where
any_where-remove_where p [] = refl
any_where-remove_where p ((j, g) ∷ d) = ground (arith, any_where-remove_where p d)

-- A new row with a lower id than the other rows with the property is the one that a query finds.
pub first_where-insert :
    (p : Friend → Bool) (new : Friend) (d : Dict Friend)
    → p new ≡ true
    → Distinct d
    → lookup new.id d ≡ none
    → ((i : ℕ) (f : Friend) → lookup i d ≡ some f → p f ≡ true → new.id < f.id)
    → first_where p (insert new.id new d) ≡ some new
unfolding first_where insert lookup
first_where-insert p new [] on u fresh lower = rw (on, first_where) refl
first_where-insert p new ((j, g) ∷ d) on u fresh lower =
    let rest =
      first_where-insert p new d on u.1 (ground arith)
        (λ i f at. lower i f (ground (arith, u.0))) in
    ground (arith, rest, lower j g, fresh)

pub any_where-insert :
    (p : Friend → Bool) (k : ℕ) (new : Friend) (d : Dict Friend)
    → lookup k d ≡ none
    → any_where p d ≡ true
    → any_where p (insert k new d) ≡ true
unfolding any_where insert lookup
any_where-insert p k new [] fresh h = absurd (ground arith)
any_where-insert p k new ((j, g) ∷ d) fresh h = ground (arith, any_where-insert p k new d)

pub any_where-lookup :
    (p : Friend → Bool) (d : Dict Friend) (i : ℕ) (f : Friend)
    → lookup i d ≡ some f
    → p f ≡ true
    → any_where p d ≡ true
unfolding any_where lookup
any_where-lookup p [] i f at on = absurd (ground arith)
any_where-lookup p ((j, g) ∷ d) i f at on = elim (Bool-cases (i == j)) [
  | inl here ↦
      let same : f ≡ g = ground arith in
      let on' : p g ≡ true = subst (λ x. p x ≡ true) same on in ground arith
  | inr other ↦ ground (arith, any_where-lookup p d i f)
]
