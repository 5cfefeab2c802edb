-- ===== src/Access/AuthCache.antt =====
-- utils/auth_cache.go: the cache of a user's status and token version. Times are in nanoseconds.
use link_up_server.Base.{
  ℕ, ◌+◌, ◌*◌, ◌≤◌, ◌≡◌, inl, inr, refl, ap, Option, none, some, List, [], ◌∷◌, arith,
  if◌then◌else◌, ltb, leb, Dict, lookup, insert, erase, lookup-insert, lookup-erase, Distinct,
  insert-Distinct, erase-Distinct, length, ◌==◌, Bool-cases,
}

-- models.UserStatus is one of several names; here it is a number.
pub record AuthCacheEntry : Type 0 where
  pub status : ℕ
  pub token_version : ℕ
  pub expires_at : ℕ

abbrev pub auth_cache_ttl : ℕ
auth_cache_ttl = 30 * 1_000_000_000

abbrev pub auth_cache_max_entries : ℕ
auth_cache_max_entries = 50_000

abbrev pub AuthCache : Type 0
AuthCache = Dict AuthCacheEntry

unfoldable pub get_cached_auth : ℕ → ℕ → AuthCache → Option (ℕ × ℕ)
get_cached_auth user now cache = elim (lookup user cache) [
  | none ↦ none
  | some e ↦ if ltb e.expires_at now then none else some (e.status, e.token_version)
]

-- The loop that deletes the entries that have expired.
unfoldable pub clean : ℕ → AuthCache → AuthCache
clean now [] = []
clean now ((user, e) ∷ cache) =
    let rest = clean now cache in if ltb e.expires_at now then rest else (user, e) ∷ rest

unfoldable pub set_cached_auth : ℕ → ℕ → ℕ → ℕ → AuthCache → AuthCache
set_cached_auth user status version now cache =
    insert user
      (record { status = status; token_version = version; expires_at = now + auth_cache_ttl })
      (if leb auth_cache_max_entries (length cache) then clean now cache else cache)

unfoldable pub invalidate_auth_cache : ℕ → AuthCache → AuthCache
invalidate_auth_cache user cache = erase user cache

abbrev pub invalidate_all_auth_cache : AuthCache → AuthCache
invalidate_all_auth_cache cache = []

-- The calls that write to the cache.
pub data Write : Type 0 where
  set : ℕ → ℕ → ℕ → ℕ → Write
  invalidate : ℕ → Write
  invalidate_all : Write

-- The cache after some writes, the latest first.
unfoldable pub run : List Write → AuthCache
run [] = []
run (set user status version now ∷ ws) = set_cached_auth user status version now (run ws)
run (invalidate user ∷ ws) = invalidate_auth_cache user (run ws)
run (invalidate_all ∷ ws) = invalidate_all_auth_cache (run ws)

-- No write is later than the one after it, nor than now.
abbrev pub InOrder : ℕ → List Write → Type 0
InOrder now [] = Unit
InOrder now (set user status version t ∷ ws) = (t ≤ now) × InOrder t ws
InOrder now (_ ∷ ws) = InOrder now ws

-- What a lookup at the time may use: what was last stored for the user, unless it has been invalidated
-- since, or is older than the lifetime.
unfoldable pub latest : ℕ → ℕ → List Write → Option (ℕ × ℕ)
latest user now [] = none
latest user now (set u status version t ∷ ws) =
    let rest = latest user now ws in
    if u == user
    then if ltb (t + auth_cache_ttl) now then none else some (status, version)
    else rest
latest user now (invalidate u ∷ ws) =
    let rest = latest user now ws in if u == user then none else rest
latest user now (invalidate_all ∷ ws) = none

lookup-clean-none :
    (user now : ℕ) (cache : AuthCache)
    → lookup user cache ≡ none
    → lookup user (clean now cache) ≡ none
unfolding clean lookup
lookup-clean-none user now [] e = refl
lookup-clean-none user now ((u, x) ∷ cache) e = ground (arith, lookup-clean-none user now cache)

clean-Distinct : (now : ℕ) (cache : AuthCache) → Distinct cache → Distinct (clean now cache)
unfolding clean lookup
clean-Distinct now [] d = tt
clean-Distinct now ((u, x) ∷ cache) d =
    ground (arith, lookup-clean-none u now cache d.0, clean-Distinct now cache d.1)

-- Cleaning is not seen by a later lookup.
get-clean :
    (user now later : ℕ) (cache : AuthCache)
    → now ≤ later
    → Distinct cache
    → get_cached_auth user later (clean now cache) ≡ get_cached_auth user later cache
unfolding get_cached_auth clean lookup
get-clean user now later [] le d = refl
get-clean user now later ((u, x) ∷ cache) le d = elim (Bool-cases (ltb x.expires_at now)) [
  | inl old ↦ rw old (elim (Bool-cases (user == u)) [
    | inl here ↦ ground (
      arith,
      here,
      lookup-clean-none u now cache d.0,
      ap (λ y. lookup y (clean now cache)) {x = user} {y = u},
    )
    | inr other ↦ ground (arith, other, get-clean user now later cache le d.1)
  ])
  | inr new ↦ rw new (elim (Bool-cases (user == u)) [
    | inl here ↦ ground (arith, here)
    | inr other ↦ ground (arith, other, get-clean user now later cache le d.1)
  ])
]

roomy : ℕ → AuthCache → AuthCache
roomy now cache = if leb auth_cache_max_entries (length cache) then clean now cache else cache

roomy-Distinct : (now : ℕ) (cache : AuthCache) → Distinct cache → Distinct (roomy now cache)
unfolding roomy
roomy-Distinct now cache d = elim (Bool-cases (leb auth_cache_max_entries (length cache))) [
  | inl full ↦ rw full (clean-Distinct now cache d)
  | inr room ↦ rw room d
]

get-roomy :
    (user now later : ℕ) (cache : AuthCache)
    → now ≤ later
    → Distinct cache
    → get_cached_auth user later (roomy now cache) ≡ get_cached_auth user later cache
unfolding roomy
get-roomy user now later cache le d =
    elim (Bool-cases (leb auth_cache_max_entries (length cache))) [
      | inl full ↦ rw full (get-clean user now later cache le d)
      | inr room ↦ rw room refl
    ]

run-Distinct : (ws : List Write) → Distinct (run ws)
unfolding run set_cached_auth invalidate_auth_cache roomy
run-Distinct [] = tt
run-Distinct (set user status version now ∷ ws) =
    insert-Distinct user _ (roomy now (run ws)) (roomy-Distinct now (run ws) (run-Distinct ws))
run-Distinct (invalidate user ∷ ws) = erase-Distinct user (run ws) (run-Distinct ws)
run-Distinct (invalidate_all ∷ ws) = tt

get-insert :
    (user now u : ℕ) (e : AuthCacheEntry) (cache : AuthCache)
    → get_cached_auth user now (insert u e cache) ≡ (
        if user == u
        then if ltb e.expires_at now then none else some (e.status, e.token_version)
        else get_cached_auth user now cache)
unfolding get_cached_auth
get-insert user now u e cache = ground (arith, lookup-insert user u e cache)

get-erase :
    (user now u : ℕ) (cache : AuthCache)
    → get_cached_auth user now (erase u cache)
      ≡ (if user == u then none else get_cached_auth user now cache)
unfolding get_cached_auth
get-erase user now u cache = ground (arith, lookup-erase user u cache)

get-empty : (user now : ℕ) → get_cached_auth user now [] ≡ none
unfolding get_cached_auth lookup
get-empty user now = refl

InOrder-later : (t now : ℕ) (ws : List Write) → t ≤ now → InOrder t ws → InOrder now ws
InOrder-later t now [] le o = tt
InOrder-later t now (set u status version s ∷ ws) le o = (ground (arith, o.0), o.1)
InOrder-later t now (invalidate u ∷ ws) le o = InOrder-later t now ws le o
InOrder-later t now (invalidate_all ∷ ws) le o = InOrder-later t now ws le o

-- After any writes in the order of their times, a lookup finds exactly what was last stored for the user, unless it has been
-- invalidated since or is older than 30 s: a status or a version never outlives its invalidation, whatever has been cleaned.
pub get_cached_auth-latest :
    (user now : ℕ) (ws : List Write)
    → InOrder now ws
    → get_cached_auth user now (run ws) ≡ latest user now ws
unfolding run latest set_cached_auth invalidate_auth_cache roomy
get_cached_auth-latest user now [] order = get-empty user now
get_cached_auth-latest user now (set u status version t ∷ ws) order =
    let e : AuthCacheEntry = record {
      status = status;
      token_version = version;
      expires_at = t + auth_cache_ttl;
    } in
    ground (
      arith,
      get-insert user now u e (roomy t (run ws)),
      get-roomy user t now (run ws) order.0 (run-Distinct ws),
      get_cached_auth-latest user now ws (InOrder-later t now ws order.0 order.1),
    )
get_cached_auth-latest user now (invalidate u ∷ ws) order =
    ground (arith, get-erase user now u (run ws), get_cached_auth-latest user now ws order)
get_cached_auth-latest user now (invalidate_all ∷ ws) order = get-empty user now
