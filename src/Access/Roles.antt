-- ===== src/Access/Roles.antt =====
-- The platform roles of a user: effectiveRole, RequireRoles and CheckAdOwnership of the role
-- middleware. A role name is a text, as the tables hold it.
use link_up_server.Base.{
  ℕ, Bool, true, false, not, ◌&&◌, ◌||◌, Option, none, some, List, [], ◌∷◌, if◌then◌else◌, ltb,
  ◌==◌,
}
use link_up_server.Text.{Text, codes, text_eq}

-- models.RoleName
abbrev pub super_admin : Text
super_admin = codes "SUPER_ADMIN"

abbrev pub admin : Text
admin = codes "ADMIN"

abbrev pub partner : Text
partner = codes "PARTNER"

abbrev pub user_role : Text
user_role = codes "USER"

-- roleRank, which is 0 for a missing key
unfoldable pub role_rank : Text → ℕ
role_rank r =
    if text_eq r super_admin
    then 4
    else if text_eq r admin
    then 3
    else if text_eq r partner
    then 2
    else if text_eq r user_role
    then 1
    else 0

unfoldable pub contains_role : List Text → Text → Bool
contains_role [] target = false
contains_role (r ∷ rs) target = text_eq r target || contains_role rs target

-- `!found || roleRank[role] > roleRank[best]`
abbrev pub is_better : Text → Option Text → Bool
is_better r none = true
is_better r (some best) = ltb (role_rank best) (role_rank r)

-- The loop of effectiveRole; `none` is `found == false`.
unfoldable pub best_role : List Text → List Text → Option Text → Option Text
best_role [] allowed best = best
best_role (r ∷ rs) allowed best =
    best_role rs allowed (if contains_role allowed r && is_better r best then some r else best)

unfoldable pub effective_role : List Text → List Text → Option Text
effective_role user_roles allowed = best_role user_roles allowed none

pub data Access : Type 0 where
  passed role_not_found permission_denied missing_ad_id ad_not_found ad_access_denied : Access

-- RequireRoles, for a user who is logged in; `none` for a query that fails. It passes the role on.
unfoldable pub require_roles : Option (List Text) → List Text → Access × Option Text
require_roles none allowed = (role_not_found, none)
require_roles (some []) allowed = (role_not_found, none)
require_roles (some (r ∷ rs)) allowed = elim (effective_role (r ∷ rs) allowed) [
  | none ↦ (permission_denied, none)
  | some role ↦ (passed, some role)
]

-- The part of CheckAdOwnership that knows the roles; `ad` is the partner of the ad, if there is one.
unfoldable pub check_owner : List Text → ℕ → Bool → Option ℕ → Access
check_owner roles user has_id ad =
    if contains_role roles super_admin || contains_role roles admin
    then passed
    else if contains_role roles partner
    then if not has_id then missing_ad_id else elim ad [
      | none ↦ ad_not_found
      | some owner ↦ if owner == user then passed else ad_access_denied
    ]
    else passed

-- CheckAdOwnership: the role that RequireRoles has passed on, else the roles of the user.
unfoldable pub check_ad_ownership : Option Text → Option (List Text) → ℕ → Bool → Option ℕ → Access
check_ad_ownership (some role) roles user has_id ad = check_owner (role ∷ []) user has_id ad
check_ad_ownership none none user has_id ad = role_not_found
check_ad_ownership none (some []) user has_id ad = role_not_found
check_ad_ownership none (some (r ∷ rs)) user has_id ad = check_owner (r ∷ rs) user has_id ad

-- The roles that the routes of routes/ad.routes.go name.
abbrev pub ad_roles : List Text
ad_roles = super_admin ∷ admin ∷ partner ∷ []

abbrev pub after_roles : Access × Option Text → Option (List Text) → ℕ → Bool → Option ℕ → Access
after_roles (passed, role) roles user has_id ad = check_ad_ownership role roles user has_id ad
after_roles (refusal, role) roles user has_id ad = refusal

-- A route that changes one ad: RequireRoles, then CheckAdOwnership.
unfoldable pub change_ad : Option (List Text) → ℕ → Bool → Option ℕ → Access
change_ad roles user has_id ad = after_roles (require_roles roles ad_roles) roles user has_id ad
