-- ===== src/Access/Counting.antt =====
-- middlewares/rate_limit.go: the counts of recent hits, and what the sweep does to them.
use link_up_server.Base.{
  ℕ, suc, ◌+◌, ◌≤◌, ◌≡◌, inl, inr, refl, ap, true, none, List, [], ◌∷◌, ◌++◌, arith, if◌then◌else◌,
  ltb, Dict, lookup, Distinct, length, ◌==◌, Bool-cases,
}
use link_up_server.Access.RateLimit.{hits_of, kept, sweep}

-- the number of times within the window before now
unfoldable pub recent : ℕ → ℕ → List ℕ → ℕ
recent window now [] = 0
recent window now (t ∷ ts) =
    let rest = recent window now ts in if ltb now (t + window) then suc rest else rest

pub length-kept :
    (window now : ℕ) (ts : List ℕ) → length (kept window now ts) ≡ recent window now ts
unfolding kept recent
length-kept window now [] = refl
length-kept window now (t ∷ ts) = ground (arith, length-kept window now ts)

-- Dropping times that are too old does not change a later count.
pub recent-kept :
    (window now later : ℕ) (ts : List ℕ)
    → now ≤ later
    → recent window later (kept window now ts) ≡ recent window later ts
unfolding kept recent
recent-kept window now later [] le = refl
recent-kept window now later (t ∷ ts) le = ground (arith, recent-kept window now later ts le)

pub recent-append :
    (window now t : ℕ) (ts : List ℕ)
    → recent window now (ts ++ t ∷ [])
      ≡ (if ltb now (t + window) then suc (recent window now ts) else recent window now ts)
unfolding recent
recent-append window now t [] = refl
recent-append window now t (u ∷ ts) = ground (arith, recent-append window now t ts)

pub lookup-sweep-none :
    (window now key : ℕ) (hits : Dict (List ℕ))
    → lookup key hits ≡ none
    → lookup key (sweep window now hits) ≡ none
unfolding sweep lookup
lookup-sweep-none window now key [] e = refl
lookup-sweep-none window now key ((k, ts) ∷ hits) e =
    ground (arith, lookup-sweep-none window now key hits)

pub sweep-Distinct :
    (window now : ℕ) (hits : Dict (List ℕ)) → Distinct hits → Distinct (sweep window now hits)
unfolding sweep lookup
sweep-Distinct window now [] d = tt
sweep-Distinct window now ((k, ts) ∷ hits) d =
    elim (Bool-cases (length (kept window now ts) == 0)) [
      | inl empty ↦ rw (empty, sweep) (sweep-Distinct window now hits d.1)
      | inr full ↦
          rw (full, sweep)
            (lookup-sweep-none window now k hits d.0, sweep-Distinct window now hits d.1)
    ]

pub recent-empty :
    (window now : ℕ) (ts : List ℕ) → (length ts == 0) ≡ true → recent window now ts ≡ 0
unfolding recent
recent-empty window now [] e = refl
recent-empty window now (t ∷ ts) e = ground arith

-- The sweep changes no later count.
pub recent-sweep :
    (window now later key : ℕ) (hits : Dict (List ℕ))
    → now ≤ later
    → Distinct hits
    → recent window later (hits_of key (sweep window now hits))
      ≡ recent window later (hits_of key hits)
unfolding sweep lookup hits_of
recent-sweep window now later key [] le d = refl
recent-sweep window now later key ((k, ts) ∷ hits) le d =
    elim (Bool-cases (length (kept window now ts) == 0)) [
      | inl empty ↦ rw empty (elim (Bool-cases (key == k)) [
        | inl here ↦ ground (
          arith,
          here,
          recent-empty window later (kept window now ts) empty,
          recent-kept window now later ts le,
          lookup-sweep-none window now k hits d.0,
          ap (λ y. lookup y (sweep window now hits)) {x = key} {y = k},
          recent-empty window later [],
        )
        | inr other ↦ ground (arith, other, recent-sweep window now later key hits le d.1)
      ])
      | inr full ↦ rw full (elim (Bool-cases (key == k)) [
        | inl here ↦ ground (arith, here, recent-kept window now later ts le)
        | inr other ↦ ground (arith, other, recent-sweep window now later key hits le d.1)
      ])
    ]
