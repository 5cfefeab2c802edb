-- ===== src/Access/Granted.antt =====
-- middlewares/rate_limit.go: what the limiter grants, over any sequence of calls.
use link_up_server.Base.{
  ℕ, suc, ◌+◌, ◌≤◌, ◌≡◌, inl, inr, refl, ap, ◌∙◌, subst, Bool, ◌&&◌, List, [], ◌∷◌, ◌++◌, arith,
  if◌then◌else◌, ltb, leb, lookup, lookup-insert, Distinct, insert-Distinct, length, ◌==◌,
  Bool-cases,
}
use link_up_server.Access.RateLimit.{
  RateLimiter, new_rate_limiter, hits_of, kept, swept, allow, max_tracked_keys,
}
use link_up_server.Access.Counting.{
  recent, length-kept, recent-kept, recent-append, sweep-Distinct, recent-sweep,
}

-- A sequence of calls, the latest first: the key and the time of each.
abbrev pub Calls : Type 0
Calls = List (ℕ × ℕ)

unfoldable pub run : RateLimiter → Calls → RateLimiter
run l [] = l
run l ((key, t) ∷ calls) = (allow key t (run l calls)).1

-- The calls of the key that were granted within the window before now.
unfoldable pub granted : RateLimiter → ℕ → ℕ → Calls → ℕ
granted l key now [] = 0
granted l key now ((k, t) ∷ calls) =
    let rest = granted l key now calls in
    if k == key && ltb now (t + l.window) && (allow k t (run l calls)).0 then suc rest else rest

-- No call is later than the one after it, nor than now.
abbrev pub InOrder : ℕ → Calls → Type 0
InOrder now [] = Unit
InOrder now ((k, t) ∷ calls) = (t ≤ now) × InOrder t calls

swept-Distinct : (now : ℕ) (l : RateLimiter) → Distinct l.hits → Distinct (swept now l)
swept-Distinct now l d = elim (Bool-cases (ltb max_tracked_keys (length l.hits))) [
  | inl over ↦ rw over (sweep-Distinct l.window now l.hits d)
  | inr within ↦ rw within d
]

recent-swept :
    (now later key : ℕ) (l : RateLimiter)
    → now ≤ later
    → Distinct l.hits
    → recent l.window later (hits_of key (swept now l)) ≡ recent l.window later (hits_of key l.hits)
recent-swept now later key l le d = elim (Bool-cases (ltb max_tracked_keys (length l.hits))) [
  | inl over ↦ rw over (recent-sweep l.window now later key l.hits le d)
  | inr within ↦ rw within refl
]

-- One call, seen from any later time.
record Allowed (key now : ℕ) (l : RateLimiter) (o : Bool × RateLimiter) : Type 0 where
  pub keys : Distinct o.1.hits
  pub window : o.1.window ≡ l.window
  pub limit : o.1.limit ≡ l.limit
  pub answer : o.0 ≡ ltb (recent l.window now (hits_of key l.hits)) l.limit
  pub counts :
      (later k : ℕ)
      → now ≤ later
      → recent l.window later (hits_of k o.1.hits) ≡ (
          if key == k && ltb later (now + l.window) && o.0
          then suc (recent l.window later (hits_of k l.hits))
          else recent l.window later (hits_of k l.hits))

allow-Allowed :
    (key now : ℕ) (l : RateLimiter) → Distinct l.hits → Allowed key now l (allow key now l)
unfolding allow hits_of
allow-Allowed key now l d =
    let hits = swept now l in
    let ts = kept l.window now (hits_of key hits) in
    elim (Bool-cases (leb l.limit (length ts))) [
      | inl full ↦
          rw (full, allow)
            (record {
              keys = insert-Distinct key ts hits (swept-Distinct now l d);
              window = refl;
              limit = refl;
              answer = ground (
                arith,
                full,
                length-kept l.window now (hits_of key hits),
                recent-swept now now key l (ground arith) d,
              );
              counts = λ later k le. ground (
                arith,
                lookup-insert k key ts hits,
                recent-kept l.window now later (hits_of key hits) le,
                recent-swept now later k l le d,
                ap (λ y. hits_of y hits) {x = key} {y = k},
              );
            })
      | inr free ↦
          rw (free, allow)
            (record {
              keys = insert-Distinct key (ts ++ now ∷ []) hits (swept-Distinct now l d);
              window = refl;
              limit = refl;
              answer = ground (
                arith,
                free,
                length-kept l.window now (hits_of key hits),
                recent-swept now now key l (ground arith) d,
              );
              counts = λ later k le. ground (
                arith,
                lookup-insert k key (ts ++ now ∷ []) hits,
                recent-kept l.window now later (hits_of key hits) le,
                recent-append l.window later now ts,
                recent-swept now later k l le d,
                ap (λ y. hits_of y hits) {x = key} {y = k},
              );
            })
    ]

none_recent : (window now key : ℕ) → recent window now (hits_of key []) ≡ 0
unfolding recent hits_of lookup
none_recent window now key = refl

InOrder-later : (t now : ℕ) (calls : Calls) → t ≤ now → InOrder t calls → InOrder now calls
InOrder-later t now [] le o = tt
InOrder-later t now ((k, u) ∷ calls) le o = (ground (arith, o.0), o.1)

-- The limiter after a sequence of calls keeps the granted ones that still count.
record Tracks (l : RateLimiter) (calls : Calls) : Type 0 where
  pub keys : Distinct (run l calls).hits
  pub window : (run l calls).window ≡ l.window
  pub limit : (run l calls).limit ≡ l.limit
  pub counts :
      (now key : ℕ)
      → InOrder now calls
      → recent l.window now (hits_of key (run l calls).hits) ≡ granted l key now calls

run-Tracks :
    (limit window : ℕ) (calls : Calls) (now : ℕ)
    → InOrder now calls
    → Tracks (new_rate_limiter limit window) calls
unfolding run granted
run-Tracks limit window [] now order = record {
  keys = tt;
  window = refl;
  limit = refl;
  counts = λ now' key o. none_recent window now' key;
}
run-Tracks limit window ((k, t) ∷ calls) now order =
    let l = new_rate_limiter limit window in
    let r = run-Tracks limit window calls t order.1 in
    let a = allow-Allowed k t (run l calls) r.keys in
    record {
      keys = a.keys;
      window = a.window ∙ r.window;
      limit = a.limit ∙ r.limit;
      counts = λ now' key o.
          let e =
            subst
              (λ w. recent w now' (hits_of key (allow k t (run l calls)).1.hits) ≡ (
                if k == key && ltb now' (t + w) && (allow k t (run l calls)).0
                then suc (recent w now' (hits_of key (run l calls).hits))
                else recent w now' (hits_of key (run l calls).hits)))
              r.window (a.counts now' key o.0) in
          ground (arith, e, r.counts now' key (InOrder-later t now' calls o.0 o.1));
    }

-- The limiter lets a call pass exactly if less than `limit` calls of the same key have passed within the window before it,
-- after any sequence of calls of any keys in the order of their times, whatever has been swept meanwhile.
pub allow-granted :
    (limit window key now : ℕ) (calls : Calls)
    → InOrder now calls
    → (allow key now (run (new_rate_limiter limit window) calls)).0
      ≡ ltb (granted (new_rate_limiter limit window) key now calls) limit
allow-granted limit window key now calls order =
    let l = new_rate_limiter limit window in
    let r = run-Tracks limit window calls now order in
    let a = allow-Allowed key now (run l calls) r.keys in
    a.answer
    ∙ (ap (λ w. ltb (recent w now (hits_of key (run l calls).hits)) (run l calls).limit) r.window
        ∙ (ap (λ n. ltb n (run l calls).limit) (r.counts now key order)
            ∙ ap (ltb (granted l key now calls)) r.limit))

granted_fewer :
    (limit window key t now : ℕ) (calls : Calls)
    → t ≤ now
    → granted (new_rate_limiter limit window) key now calls
      ≤ granted (new_rate_limiter limit window) key t calls
unfolding granted
granted_fewer limit window key t now [] le = ground arith
granted_fewer limit window key t now ((k, u) ∷ calls) le =
    ground (arith, granted_fewer limit window key t now calls le)

-- After any sequence of calls in the order of their times, at most `limit` calls of a key have passed within the window
-- before any time from the last call on.
pub granted-bound :
    (limit window key now : ℕ) (calls : Calls)
    → InOrder now calls
    → granted (new_rate_limiter limit window) key now calls ≤ limit
unfolding granted
granted-bound limit window key now [] order = ground arith
granted-bound limit window key now ((k, t) ∷ calls) order = ground (
  arith,
  granted-bound limit window key t calls order.1,
  granted_fewer limit window key t now calls order.0,
  allow-granted limit window k t calls order.1,
  order.0,
  ap (λ y. granted (new_rate_limiter limit window) y t calls) {x = k} {y = key},
)
