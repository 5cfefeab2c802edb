-- ===== src/Access/Ownership.antt =====
-- middlewares/rbac.middleware.go and routes/ad.routes.go: who may change an ad.
use link_up_server.Base.{
  ℕ, ◌≡◌, ◌⊎◌, inl, inr, sym, ap, ◌∙◌, subst, Bool, true, false, Option, none, some, List, [], ◌∷◌,
  arith, Option-cases,
}
use link_up_server.Text.{Text, text_eq}
use link_up_server.Access.Roles.{
  contains_role, effective_role, Access, passed, permission_denied, require_roles, check_owner,
  check_ad_ownership, ad_roles, after_roles, change_ad, super_admin, admin, partner,
}
use link_up_server.Access.Strongest.{first_or_rest, Strongest, effective_role-Strongest}

ad_role :
    (b : Text) → contains_role ad_roles b ≡ true → (super_admin ≡ b) ⊎ ((admin ≡ b) ⊎ (partner ≡ b))
unfolding contains_role
ad_role b h = elim (first_or_rest super_admin b (admin ∷ partner ∷ []) h) [
  | inl e ↦ inl e
  | inr rest ↦ elim (first_or_rest admin b (partner ∷ []) rest) [
    | inl e ↦ inr (inl e)
    | inr rest' ↦ elim (first_or_rest partner b [] rest') [
      | inl e ↦ inr (inr e)
      | inr nothing ↦ absurd (ground arith)
    ]
  ]
]

-- Who may change an ad.
pub data MayChange (roles : List Text) (user : ℕ) (has_id : Bool) (ad : Option ℕ) : Type 0 where
  by_admin :
      (contains_role roles super_admin ≡ true) ⊎ (contains_role roles admin ≡ true)
      → MayChange roles user has_id ad
  by_owner :
      contains_role roles partner ≡ true
      → has_id ≡ true
      → ad ≡ some user
      → MayChange roles user has_id ad

partner_owns :
    (user : ℕ) (has_id : Bool) (ad : Option ℕ)
    → check_owner (partner ∷ []) user has_id ad ≡ passed
    → (has_id ≡ true) × (ad ≡ some user)
unfolding check_owner contains_role text_eq
partner_owns user false ad h = absurd (ground arith)
partner_owns user true none h = absurd (ground arith)
partner_owns user true (some owner) h = ground arith

chosen-MayChange :
    (roles : List Text) (b : Text) (user : ℕ) (has_id : Bool) (ad : Option ℕ)
    → contains_role roles b ≡ true
    → contains_role ad_roles b ≡ true
    → check_owner (b ∷ []) user has_id ad ≡ passed
    → MayChange roles user has_id ad
chosen-MayChange roles b user has_id ad own allowed h = elim (ad_role b allowed) [
  | inl e ↦ by_admin (inl (subst (λ x. contains_role roles x ≡ true) (sym e) own))
  | inr (inl e) ↦ by_admin (inr (subst (λ x. contains_role roles x ≡ true) (sym e) own))
  | inr (inr e) ↦
      let (id, mine) =
        partner_owns user has_id ad
          (subst (λ x. check_owner (x ∷ []) user has_id ad ≡ passed) (sym e) h) in
      by_owner (subst (λ x. contains_role roles x ≡ true) (sym e) own) id mine
]

clash : permission_denied ≡ passed → ⊥
clash e = ground arith

-- RequireRoles and CheckAdOwnership, once the effective role is known.
abbrev from_effective : Option (List Text) → ℕ → Bool → Option ℕ → Option Text → Access
from_effective roles user has_id ad o =
    after_roles (elim o [ none ↦ (permission_denied, none) | some role ↦ (passed, some role) ])
      roles user has_id ad

change_ad_denied :
    (r : Text) (rs : List Text) (user : ℕ) (has_id : Bool) (ad : Option ℕ)
    → effective_role (r ∷ rs) ad_roles ≡ none
    → change_ad (some (r ∷ rs)) user has_id ad ≡ permission_denied
unfolding change_ad require_roles
change_ad_denied r rs user has_id ad e = ap (from_effective (some (r ∷ rs)) user has_id ad) e

change_ad-check_owner :
    (r : Text) (rs : List Text) (b : Text) (user : ℕ) (has_id : Bool) (ad : Option ℕ)
    → effective_role (r ∷ rs) ad_roles ≡ some b
    → change_ad (some (r ∷ rs)) user has_id ad ≡ check_owner (b ∷ []) user has_id ad
unfolding change_ad require_roles check_ad_ownership
change_ad-check_owner r rs b user has_id ad e = ap (from_effective (some (r ∷ rs)) user has_id ad) e

-- A request to change an ad passes both checks only for a user who is an admin or a super admin, or for a partner whose
-- own ad it is.
pub change_ad-MayChange :
    (roles : List Text) (user : ℕ) (has_id : Bool) (ad : Option ℕ)
    → change_ad (some roles) user has_id ad ≡ passed
    → MayChange roles user has_id ad
unfolding change_ad require_roles
change_ad-MayChange [] user has_id ad h = absurd (ground arith)
change_ad-MayChange (r ∷ rs) user has_id ad h =
    elim (Option-cases (effective_role (r ∷ rs) ad_roles)) [
      | inl nobody ↦ absurd (clash (sym (change_ad_denied r rs user has_id ad nobody) ∙ h))
      | inr (b, found) ↦
          let strongest =
            subst (Strongest (r ∷ rs) ad_roles) found
              (effective_role-Strongest (r ∷ rs) ad_roles) in
          chosen-MayChange (r ∷ rs) b user has_id ad strongest.0 strongest.1
            (sym (change_ad-check_owner r rs b user has_id ad found) ∙ h)
    ]
