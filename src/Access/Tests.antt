-- ===== src/Access/Tests.antt =====
-- The theorems on the limiter and on the cache at concrete inputs.
use link_up_server.Base.{◌≤◌, ◌≡◌, refl, List, some, true, [], ◌∷◌, ltb, arith}
use link_up_server.Access.RateLimit.{new_rate_limiter, allow}
use link_up_server.Access.Granted
use link_up_server.Access.Granted.{Calls, granted, allow-granted, granted-bound}
use link_up_server.Access.AuthCache.{
  Write, set, invalidate, get_cached_auth, latest, get_cached_auth-latest,
}
use link_up_server.Access.AuthCache
use link_up_server.Text.{Text, text_eq}
use link_up_server.Access.Roles.{
  user_role, partner, ad_roles, effective_role, best_role, contains_role, role_rank, require_roles,
  check_ad_ownership, check_owner, change_ad,
}
use link_up_server.Access.Ownership.{MayChange, change_ad-MayChange}
use link_up_server.Access.Strongest.{Strongest, effective_role-Strongest}

-- Two calls of key 1 and one of key 2, the latest first.
abbrev calls : Calls
calls = (1, 25) ∷ (2, 22) ∷ (1, 20) ∷ []

allow-granted_example :
    (allow 1 28 (Granted.run (new_rate_limiter 2 10) calls)).0
    ≡ ltb (granted (new_rate_limiter 2 10) 1 28 calls) 2
allow-granted_example =
    allow-granted 2 10 1 28 calls (omega arith, (omega arith, (omega arith, tt)))

granted-bound_example : granted (new_rate_limiter 2 10) 1 28 calls ≤ 2
granted-bound_example =
    granted-bound 2 10 1 28 calls (omega arith, (omega arith, (omega arith, tt)))

-- User 5 is stored, then user 6 is invalidated.
abbrev writes : List Write
writes = invalidate 6 ∷ set 5 1 3 100 ∷ []

get_cached_auth-latest_example : get_cached_auth 5 200 (AuthCache.run writes) ≡ latest 5 200 writes
get_cached_auth-latest_example = get_cached_auth-latest 5 200 writes (omega arith, tt)

-- A partner who is a user too.
abbrev roles : List Text
roles = user_role ∷ partner ∷ []

effective_role-Strongest_example : Strongest roles ad_roles (effective_role roles ad_roles)
effective_role-Strongest_example = effective_role-Strongest roles ad_roles

change_ad-MayChange_example : MayChange roles 7 true (some 7)
unfolding change_ad require_roles effective_role best_role contains_role role_rank
    check_ad_ownership check_owner text_eq
change_ad-MayChange_example = change_ad-MayChange roles 7 true (some 7) refl
