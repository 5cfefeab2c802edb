-- ===== src/Base/Tables.antt =====
-- The rows of a table whose ids nobody reads: `Count`, `Delete` and a conditional `Update`.
use mathlib.Core.Path.{◌≡◌, refl}
use mathlib.Core.Logic.{inl, inr}
use mathlib.Core.Bool.{Bool, true, false, not, ◌&&◌, ◌||◌}
use mathlib.Core.List.{List, [], ◌∷◌}
use native.Mathlib.Omega.{arith}
use link_up_server.Base.Tests.{if◌then◌else◌, Bool-cases}

module _ {ℓ} {A : Type ℓ} where
  -- `Where(...).Count(...) > 0`
  unfoldable pub any_row : (A → Bool) → List A → Bool
  any_row p [] = false
  any_row p (x ∷ xs) = p x || any_row p xs

  -- `Where(...).Find(...)`
  unfoldable pub find_rows : (A → Bool) → List A → List A
  find_rows p [] = []
  find_rows p (x ∷ xs) = let rest = find_rows p xs in if p x then x ∷ rest else rest

  -- `Where(...).Delete(...)`
  unfoldable pub delete_rows : (A → Bool) → List A → List A
  delete_rows p [] = []
  delete_rows p (x ∷ xs) = let rest = delete_rows p xs in if p x then rest else x ∷ rest

  -- `Where(...).Update(...)`
  unfoldable pub change_rows : (A → Bool) → (A → A) → List A → List A
  change_rows p f [] = []
  change_rows p f (x ∷ xs) = let rest = change_rows p f xs in if p x then f x ∷ rest else x ∷ rest

  -- Rows that are still there were there before.
  pub any_row-delete_rows :
      (p q : A → Bool) (xs : List A) → any_row p (delete_rows q xs) ≡ true → any_row p xs ≡ true
  unfolding any_row delete_rows
  any_row-delete_rows p q [] h = h
  any_row-delete_rows p q (x ∷ xs) h = ground (arith, any_row-delete_rows p q xs)

  pub any_row-deleted :
      (p q : A → Bool) (xs : List A)
      → ((x : A) → p x ≡ true → q x ≡ true)
      → any_row p (delete_rows q xs) ≡ false
  unfolding any_row delete_rows
  any_row-deleted p q [] h = refl
  any_row-deleted p q (x ∷ xs) h = elim (Bool-cases (q x)) [
    | inl on ↦ rw (on, delete_rows) (any_row-deleted p q xs h)
    | inr off ↦ rw (off, delete_rows) (ground (arith, h x, any_row-deleted p q xs h))
  ]

  pub any_row-kept :
      (p q : A → Bool) (xs : List A)
      → ((x : A) → p x ≡ true → q x ≡ false)
      → any_row p (delete_rows q xs) ≡ any_row p xs
  unfolding any_row delete_rows
  any_row-kept p q [] h = refl
  any_row-kept p q (x ∷ xs) h = elim (Bool-cases (q x)) [
    | inl on ↦ rw (on, delete_rows) (ground (arith, h x, any_row-kept p q xs h))
    | inr off ↦ rw (off, delete_rows) (ground (arith, any_row-kept p q xs h))
  ]

  pub any_row-change_rows :
      (p q : A → Bool) (f : A → A) (xs : List A)
      → ((x : A) → q x ≡ true → p (f x) ≡ true → p x ≡ true)
      → any_row p (change_rows q f xs) ≡ true
      → any_row p xs ≡ true
  unfolding any_row change_rows
  any_row-change_rows p q f [] h = λ k. k
  any_row-change_rows p q f (x ∷ xs) h = elim (Bool-cases (q x)) [
    | inl on ↦ rw (on, change_rows) (λ k. ground (arith, h x, any_row-change_rows p q f xs h))
    | inr off ↦ rw (off, change_rows) (λ k. ground (arith, any_row-change_rows p q f xs h))
  ]

  -- A row with one property has another one.
  pub any_row_mono :
      (p q : A → Bool) (xs : List A)
      → ((x : A) → p x ≡ true → q x ≡ true)
      → any_row p xs ≡ true
      → any_row q xs ≡ true
  unfolding any_row
  any_row_mono p q [] h k = k
  any_row_mono p q (x ∷ xs) h k = ground (arith, h x, any_row_mono p q xs h)

  pub any_row-rest :
      (p q : A → Bool) (xs : List A)
      → any_row (λ x. p x && not (q x)) xs ≡ false
      → any_row p (delete_rows q xs) ≡ false
  unfolding any_row delete_rows
  any_row-rest p q [] h = refl
  any_row-rest p q (x ∷ xs) h = elim (Bool-cases (q x)) [
    | inl on ↦ rw (on, delete_rows) (any_row-rest p q xs (ground arith))
    | inr off ↦ rw (off, delete_rows) (ground (arith, any_row-rest p q xs))
  ]
