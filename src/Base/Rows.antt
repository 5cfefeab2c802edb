-- ===== src/Base/Rows.antt =====
-- The rows of a database table by their ids, with the statements that the repositories issue:
-- `Create`, `First` and a conditional `Update`.
use Prim.Native.Nat.{ℕ, ◌≤◌}
use mathlib.Core.Path.{◌≡◌, refl, subst}
use mathlib.Core.Logic.{inl, inr}
use mathlib.Core.Bool.{Bool, true, false}
use mathlib.Core.Option.{Option, none, some}
use mathlib.Core.List.{[], ◌∷◌}
use native.Mathlib.Omega.{arith}
use link_up_server.Base.Tests.{◌==◌, ltb, if◌then◌else◌, Bool-cases}
use link_up_server.Base.Maps.{Dict, lookup, insert, Distinct}

module _ {ℓ} {V : Type ℓ} where
  abbrev pub lower_row : ℕ → V → Option (ℕ × V) → Option (ℕ × V)
  lower_row i v none = some (i, v)
  lower_row i v (some (j, w)) = if ltb j i then some (j, w) else some (i, v)

  -- `First`: the row with the least id among those with a property.
  unfoldable pub first_row : (V → Bool) → Dict V → Option (ℕ × V)
  first_row p [] = none
  first_row p ((i, v) ∷ d) = let rest = first_row p d in if p v then lower_row i v rest else rest

  -- `Create`, which fails when the id is taken.
  unfoldable pub create_row : ℕ → V → Dict V → Option (Dict V)
  create_row k v d = elim (lookup k d) [ none ↦ some (insert k v d) | some w ↦ none ]

  -- `Where(...).Update(...)`
  unfoldable pub update_rows : (V → Bool) → (V → V) → Dict V → Dict V
  update_rows p f [] = []
  update_rows p f ((i, v) ∷ d) =
      let rest = update_rows p f d in if p v then (i, f v) ∷ rest else (i, v) ∷ rest

  -- What `First` finds.
  abbrev pub FirstRow : (V → Bool) → Dict V → Option (ℕ × V) → Type ℓ
  FirstRow p d none = (i : ℕ) (v : V) → lookup i d ≡ some v → p v ≡ false
  FirstRow p d (some (i, v)) =
      (lookup i d ≡ some v)
      × (p v ≡ true)
      × ((j : ℕ) (w : V) → lookup j d ≡ some w → p w ≡ true → i ≤ j)

  value-at : (p : V → Bool) (v w : V) (b : Bool) → some v ≡ some w → p v ≡ b → p w ≡ b
  value-at p v w b e h = let same : v ≡ w = ground arith in subst (λ x. p x ≡ b) same h

  lower_row-FirstRow :
      (p : V → Bool) (i : ℕ) (v : V) (d : Dict V) (o : Option (ℕ × V))
      → lookup i d ≡ none
      → p v ≡ true
      → FirstRow p d o
      → FirstRow p ((i, v) ∷ d) (lower_row i v o)
  unfolding lookup
  lower_row-FirstRow p i v d none new on f = (
    ground arith,
    on,
    λ j w at q. elim (Bool-cases (j == i)) [
      | inl same ↦ ground arith
      | inr other ↦ let off : p w ≡ false = f j w (ground arith) in ground arith
    ],
  )
  lower_row-FirstRow p i v d (some (j, w)) new on (at, q, least) = elim (Bool-cases (ltb j i)) [
    | inl lower ↦ rw lower (ground arith, q, λ k x e h. ground (arith, least k x))
    | inr higher ↦ rw higher (ground arith, on, λ k x e h. ground (arith, least k x))
  ]

  skip_row-FirstRow :
      (p : V → Bool) (i : ℕ) (v : V) (d : Dict V) (o : Option (ℕ × V))
      → lookup i d ≡ none
      → p v ≡ false
      → FirstRow p d o
      → FirstRow p ((i, v) ∷ d) o
  unfolding lookup
  skip_row-FirstRow p i v d none new off f = λ j w at. elim (Bool-cases (j == i)) [
    | inl same ↦ value-at p v w false (ground arith) off
    | inr other ↦ f j w (ground arith)
  ]
  skip_row-FirstRow p i v d (some (j, w)) new off (at, q, least) = (
    ground arith,
    q,
    λ k x e h. elim (Bool-cases (k == i)) [
      | inl same ↦ let off' : p x ≡ false = value-at p v x false (ground arith) off in ground arith
      | inr other ↦ least k x (ground arith) h
    ],
  )

  pub first_row-FirstRow : (p : V → Bool) (d : Dict V) → Distinct d → FirstRow p d (first_row p d)
  unfolding first_row lookup
  first_row-FirstRow p [] u = λ i v at. absurd (ground arith)
  first_row-FirstRow p ((i, v) ∷ d) u = elim (Bool-cases (p v)) [
    | inl on ↦
        rw (on, first_row)
          (lower_row-FirstRow p i v d (first_row p d) u.0 on (first_row-FirstRow p d u.1))
    | inr off ↦
        rw (off, first_row)
          (skip_row-FirstRow p i v d (first_row p d) u.0 off (first_row-FirstRow p d u.1))
  ]

  abbrev pub updated : (V → Bool) → (V → V) → Option V → Option V
  updated p f none = none
  updated p f (some v) = if p v then some (f v) else some v

  pub lookup-update_rows :
      (p : V → Bool) (f : V → V) (i : ℕ) (d : Dict V)
      → lookup i (update_rows p f d) ≡ updated p f (lookup i d)
  unfolding update_rows lookup
  lookup-update_rows p f i [] = refl
  lookup-update_rows p f i ((j, v) ∷ d) = ground (arith, lookup-update_rows p f i d)

  pub update_rows-Distinct :
      (p : V → Bool) (f : V → V) (d : Dict V) → Distinct d → Distinct (update_rows p f d)
  unfolding update_rows
  update_rows-Distinct p f [] u = tt
  update_rows-Distinct p f ((i, v) ∷ d) u =
      ground (arith, lookup-update_rows p f i d, update_rows-Distinct p f d u.1)
