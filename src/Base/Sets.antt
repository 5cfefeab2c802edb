-- ===== src/Base/Sets.antt =====
-- A Go set of identifiers, `map[string]struct{}`, as its members in the order of a `range`.
use Prim.Native.Nat.{ℕ, suc}
use mathlib.Core.Path.{◌≡◌}
use mathlib.Core.Bool.{Bool, true, false}
use mathlib.Core.List.{List, [], ◌∷◌}
use native.Mathlib.Omega.{arith}
use link_up_server.Base.Tests.{◌==◌, if◌then◌else◌}

abbrev pub IdSet : Type 0
IdSet = List ℕ

-- `len`
abbrev pub length {ℓ} : {A : Type ℓ} → List A → ℕ
length [] = 0
length (x ∷ xs) = suc (length xs)

-- `_, ok := s[x]`
unfoldable pub has : ℕ → IdSet → Bool
has x [] = false
has x (y ∷ s) = if x == y then true else has x s

-- `s[x] = struct{}{}`
unfoldable pub add : ℕ → IdSet → IdSet
add x s = if has x s then s else x ∷ s

-- `delete(s, x)`
unfoldable pub remove : ℕ → IdSet → IdSet
remove x [] = []
remove x (y ∷ s) = if x == y then remove x s else y ∷ remove x s

pub has-add : (x y : ℕ) (s : IdSet) → has y (add x s) ≡ (if y == x then true else has y s)
unfolding has add
has-add x y s = ground arith

pub has-remove : (x y : ℕ) (s : IdSet) → has y (remove x s) ≡ (if y == x then false else has y s)
unfolding has remove
has-remove x y [] = ground arith
has-remove x y (z ∷ s) = ground (arith, has-remove x y s)
