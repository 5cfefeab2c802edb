-- ===== src/Base/Sort.antt =====
-- `sort.Strings` on a list of identifiers.
use Prim.Native.Nat.{ℕ, ◌≤◌}
use mathlib.Core.Logic.{inl, inr}
use mathlib.Core.Path.{◌≡◌, refl}
use mathlib.Core.Bool.{true}
use mathlib.Core.List.{List, [], ◌∷◌}
use native.Mathlib.Omega.{arith}
use link_up_server.Base.Tests.{◌==◌, leb, if◌then◌else◌, Bool-cases}
use link_up_server.Base.Sets.{has}

insert_sorted : ℕ → List ℕ → List ℕ
insert_sorted x [] = x ∷ []
insert_sorted x (y ∷ ys) = if leb x y then x ∷ y ∷ ys else y ∷ insert_sorted x ys

unfoldable pub sort_ids : List ℕ → List ℕ
unfolding insert_sorted
sort_ids [] = []
sort_ids (x ∷ xs) = insert_sorted x (sort_ids xs)

has-insert_sorted :
    (x y : ℕ) (s : List ℕ) → has y (insert_sorted x s) ≡ (if y == x then true else has y s)
unfolding insert_sorted has
has-insert_sorted x y [] = ground arith
has-insert_sorted x y (z ∷ s) = ground (arith, has-insert_sorted x y s)

-- Sorting keeps the members.
pub has-sort_ids : (y : ℕ) (s : List ℕ) → has y (sort_ids s) ≡ has y s
unfolding sort_ids has
has-sort_ids y [] = refl
has-sort_ids y (x ∷ s) = ground (arith, has-insert_sorted x y (sort_ids s), has-sort_ids y s)

abbrev pub IsSorted : List ℕ → Type 0
IsSorted [] = Unit
IsSorted (x ∷ xs) = ((y : ℕ) → has y xs ≡ true → x ≤ y) × IsSorted xs

insert_sorted-IsSorted : (x : ℕ) (ys : List ℕ) → IsSorted ys → IsSorted (insert_sorted x ys)
unfolding insert_sorted has
insert_sorted-IsSorted x [] h = (λ y k. cc, tt)
insert_sorted-IsSorted x (y ∷ ys) h = elim (Bool-cases (leb x y)) [
  | inl le ↦ rw le (λ z k. ground (arith, h.0 z), h)
  | inr gt ↦
      rw gt
        (λ z k. ground (arith, h.0 z, has-insert_sorted x z ys), insert_sorted-IsSorted x ys h.1)
]

pub sort_ids-IsSorted : (xs : List ℕ) → IsSorted (sort_ids xs)
unfolding sort_ids
sort_ids-IsSorted [] = tt
sort_ids-IsSorted (x ∷ xs) = insert_sorted-IsSorted x (sort_ids xs) (sort_ids-IsSorted xs)
