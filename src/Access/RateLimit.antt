-- ===== src/Access/RateLimit.antt =====
-- middlewares/rate_limit.go: RateLimiter. Times are in nanoseconds, a key is the IP address of a
-- client, and the limit is not negative.
use link_up_server.Base.{
  ℕ, ◌+◌, ◌++◌, Bool, true, false, none, some, List, [], ◌∷◌, if◌then◌else◌, ltb, leb, Dict, lookup,
  insert, length, ◌==◌,
}

pub record RateLimiter : Type 0 where
  pub hits : Dict (List ℕ)
  pub limit : ℕ
  pub window : ℕ

abbrev pub max_tracked_keys : ℕ
max_tracked_keys = 10_000

abbrev pub new_rate_limiter : ℕ → ℕ → RateLimiter
new_rate_limiter limit window = record { hits = []; limit = limit; window = window }

-- `l.hits[key]`, which is empty for a missing key
unfoldable pub hits_of : ℕ → Dict (List ℕ) → List ℕ
hits_of key hits = elim (lookup key hits) [ none ↦ [] | some ts ↦ ts ]

-- The times after `now.Add(-l.window)`.
unfoldable pub kept : ℕ → ℕ → List ℕ → List ℕ
kept window now [] = []
kept window now (t ∷ ts) =
    let rest = kept window now ts in if ltb now (t + window) then t ∷ rest else rest

-- The loop over all keys.
unfoldable pub sweep : ℕ → ℕ → Dict (List ℕ) → Dict (List ℕ)
sweep window now [] = []
sweep window now ((key, ts) ∷ hits) =
    let rest = sweep window now hits in
    let ts' = kept window now ts in if length ts' == 0 then rest else (key, ts') ∷ rest

abbrev pub swept : ℕ → RateLimiter → Dict (List ℕ)
swept now l = if ltb max_tracked_keys (length l.hits) then sweep l.window now l.hits else l.hits

-- Allow
unfoldable pub allow : ℕ → ℕ → RateLimiter → Bool × RateLimiter
allow key now l =
    let hits = swept now l in
    let ts = kept l.window now (hits_of key hits) in
    if leb l.limit (length ts)
    then (false, record l { hits = insert key ts hits })
    else (true, record l { hits = insert key (ts ++ now ∷ []) hits })
