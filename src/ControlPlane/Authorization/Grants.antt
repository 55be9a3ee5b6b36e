-- ===== src/ControlPlane/Authorization/Grants.antt =====
-- Who passes `require`: a platform administrator, or an active member of the tenant one of whose
-- roles grants the permission.
use text.Mathlib.TextEquality.{eq_iff, path_by_compare}
use uwo_shared_platform.Prelude.{
  String, ◌≡◌, refl, ◌⊎◌, inl, inr, Bool, true, false, ◌||◌, none, some, List, [], ◌∷◌, any, arith,
  Bool-cases, Option-cases,
}
use uwo_shared_platform.Prelude.Keys.{string_eq, pair_eq, ◌==◌}
use uwo_shared_platform.Prelude.Dict.{get}
use uwo_shared_platform.Errors.{ok, Result-cases}
use uwo_shared_platform.Contracts.Domain.{
  TenantMembership, VerifiedSubjectIdentity, is_active_membership,
}
use uwo_shared_platform.ControlPlane.{Directory}
use uwo_shared_platform.ControlPlane.Authorization.{
  is_in, Permission, permission_value, insert_sorted, update_set, role_permissions,
  effective_permissions, require, require_platform_admin, is_platform_admin, subject_exists,
}

is_in-insert_sorted :
    (x s : String) (ts : List String) → is_in x (insert_sorted s ts) ≡ (x == s || is_in x ts)
unfolding insert_sorted
is_in-insert_sorted x s [] = refl
is_in-insert_sorted x s (t ∷ ts) = ground (arith, is_in-insert_sorted x s ts, path_by_compare s t)

is_in-update_set :
    (x : String) (ss acc : List String) → is_in x (update_set ss acc) ≡ (is_in x acc || is_in x ss)
unfolding update_set
is_in-update_set x [] acc = ground arith
is_in-update_set x (s ∷ ss) acc =
    ground (arith, is_in-update_set x ss (insert_sorted s acc), is_in-insert_sorted x s acc)

-- the role grants the permission
abbrev pub grants : Directory → String → String → Bool
grants d x role_id = elim (get d.roles role_id) [ none ↦ false | some r ↦ is_in x r.permission_ids ]

is_in-role_permissions :
    (d : Directory) (x : String) (rs acc : List String) {ps : List String}
    → role_permissions d rs acc ≡ ok ps
    → is_in x ps ≡ (is_in x acc || any (grants d x) rs)
unfolding role_permissions
is_in-role_permissions d x [] acc h = ground arith
is_in-role_permissions d x (r ∷ rs) acc {ps} h = elim (Option-cases (get d.roles r)) [
  | inl unknown ↦ absurd (ground arith)
  | inr (role, known) ↦ ground (
    arith,
    is_in-role_permissions d x rs (update_set role.permission_ids acc) {ps = ps},
    is_in-update_set x role.permission_ids acc,
  )
]

-- A subject that passes is a platform administrator that the directory still knows, or a subject of
-- the tenant itself, known to the directory, with an active membership one of whose roles grants the
-- permission.
pub require-grants :
    (d : Directory) (i : VerifiedSubjectIdentity) (t : String) (p : Permission)
    (allow_suspended : Bool)
    → require d i t p allow_suspended ≡ ok tt
    → (subject_exists d i.subject ≡ true)
      × ((is_platform_admin d i ≡ true)
          ⊎ ((i.tenant_id ≡ t)
              × ((m : TenantMembership) × (get d.memberships (t, i.subject) ≡ some m)
                  × (is_active_membership m.status ≡ true)
                  × (any (grants d (permission_value p)) m.role_ids ≡ true))))
unfolding require effective_permissions require_platform_admin
require-grants d i t p allow_suspended h = elim (Option-cases (get d.tenants t)) [
  | inl unknown ↦ absurd (ground arith)
  | inr (tenant, known) ↦ elim (Bool-cases (is_platform_admin d i)) [
    | inl administrator ↦ (ground arith, inl administrator)
    | inr other ↦ elim (Option-cases (get d.memberships (t, i.subject))) [
      | inl stranger ↦ absurd (ground arith)
      | inr (m, member) ↦ elim (Result-cases (role_permissions d m.role_ids [])) [
        | inr (x, refused) ↦ absurd (ground arith)
        | inl (ps, granted) ↦ (
          ground arith,
          inr (
            ground (arith, eq_iff i.tenant_id t),
            (
              m,
              member,
              ground arith,
              ground (arith, is_in-role_permissions d (permission_value p) m.role_ids [] granted),
            ),
          ),
        )
      ]
    ]
  ]
]
