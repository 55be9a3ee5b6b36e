-- ===== src/ControlPlane/Authorization.antt =====
-- services/platform_control_plane/authorization.py: platform-admin and tenant-admin authorization.
pub mod Grants
use Prim.Native.String.{compare}
use Prim.Native.Nat.{Ordering}
use uwo_shared_platform.Prelude.{
  String, Bool, true, false, not, ◌&&◌, Option, none, some, List, [], ◌∷◌, any, if◌then◌else◌,
}
use uwo_shared_platform.Prelude.Keys.{string_eq, pair_eq, ◌==◌}
use uwo_shared_platform.Prelude.Dict.{get}
use uwo_shared_platform.Errors
use uwo_shared_platform.Errors.{
  Code, Error, Result, ok, err, authorization_denied, resource_not_found, raise_if, ◌>>=◌, ◌>>◌,
}
use uwo_shared_platform.Contracts.Domain.{
  Tenant, TenantMembership, VerifiedSubjectIdentity, is_suspended, is_active_membership,
}
use uwo_shared_platform.ControlPlane.{Directory}

-- `x in xs`
abbrev pub is_in : String → List String → Bool
is_in x xs = any (λ y. x == y) xs

-- the permissions that the services ask for
pub data Permission : Type 0 where
  tenant_read tenant_manage membership_manage role_manage : Permission
  entitlement_read entitlement_manage policy_read : Permission
  billing_read billing_manage billing_execute : Permission
  storage_read storage_write storage_manage : Permission
  notifications_read notifications_manage notifications_send : Permission
  analytics_read analytics_ingest audit_read audit_export audit_verify : Permission

unfoldable pub permission_value : Permission → String
permission_value Permission.tenant_read = "tenant.read"
permission_value Permission.tenant_manage = "tenant.manage"
permission_value Permission.membership_manage = "membership.manage"
permission_value Permission.role_manage = "role.manage"
permission_value Permission.entitlement_read = "entitlement.read"
permission_value Permission.entitlement_manage = "entitlement.manage"
permission_value Permission.policy_read = "policy.read"
permission_value Permission.billing_read = "billing.read"
permission_value Permission.billing_manage = "billing.manage"
permission_value Permission.billing_execute = "billing.execute"
permission_value Permission.storage_read = "storage.read"
permission_value Permission.storage_write = "storage.write"
permission_value Permission.storage_manage = "storage.manage"
permission_value Permission.notifications_read = "notifications.read"
permission_value Permission.notifications_manage = "notifications.manage"
permission_value Permission.notifications_send = "notifications.send"
permission_value Permission.analytics_read = "analytics.read"
permission_value Permission.analytics_ingest = "analytics.ingest"
permission_value Permission.audit_read = "audit.read"
permission_value Permission.audit_export = "audit.export"
permission_value Permission.audit_verify = "audit.verify"

-- `StaticSubjectDirectory.exists`
abbrev pub subject_exists : Directory → String → Bool
subject_exists d s = is_in s d.subjects

abbrev pub is_platform_admin : Directory → VerifiedSubjectIdentity → Bool
is_platform_admin d i = is_in i.subject d.platform_admin_subjects

unfoldable pub require_platform_admin : Directory → VerifiedSubjectIdentity → Result (Unit {0})
require_platform_admin d i = do
  raise_if (not (subject_exists d i.subject)) (authorization_denied Code.deprovisioned_subject)
  raise_if (not (is_platform_admin d i)) (authorization_denied Code.platform_admin_required)

-- A set of texts, held sorted: `tuple(sorted(permissions))` is the set itself.
unfoldable pub insert_sorted : String → List String → List String
insert_sorted s [] = s ∷ []
insert_sorted s (t ∷ ts) = elim (compare s t) [
  | Ordering.lt ↦ s ∷ t ∷ ts
  | Ordering.eq ↦ t ∷ ts
  | Ordering.gt ↦ t ∷ insert_sorted s ts
]

-- `permissions.update(ids)`
unfoldable pub update_set : List String → List String → List String
unfolding insert_sorted
update_set [] acc = acc
update_set (s ∷ ss) acc = update_set ss (insert_sorted s acc)

unfoldable pub role_permissions : Directory → List String → List String → Result (List String)
role_permissions d [] acc = ok acc
role_permissions d (r ∷ rs) acc = elim (get d.roles r) [
  | none ↦ err (authorization_denied Code.unknown_role)
  | some role ↦ role_permissions d rs (update_set role.permission_ids acc)
]

abbrev tenant_of : Directory → String → Result Tenant
tenant_of d tenant_id = elim (get d.tenants tenant_id) [
  | none ↦ err (resource_not_found Code.unknown_tenant)
  | some t ↦ ok t
]

abbrev membership_of : Directory → String → String → Result TenantMembership
membership_of d tenant_id subject = elim (get d.memberships (tenant_id, subject)) [
  | none ↦ err (authorization_denied Code.unknown_subject)
  | some m ↦ ok m
]

unfoldable pub effective_permissions : Directory → String → String → Bool → Result (List String)
effective_permissions d tenant_id subject allow_suspended = do
  tenant ← tenant_of d tenant_id
  raise_if (is_suspended tenant.status && not allow_suspended)
      (authorization_denied Code.tenant_suspended)
  membership ← membership_of d tenant_id subject
  raise_if (not (subject_exists d subject)) (authorization_denied Code.deprovisioned_subject)
  raise_if (not (is_active_membership membership.status))
      (authorization_denied Code.membership_inactive)
  role_permissions d membership.role_ids []

-- `permission.value not in permissions`
abbrev require_permission : Permission → List String → Result (Unit {0})
require_permission p ps =
    raise_if (not (is_in (permission_value p) ps)) (authorization_denied Code.permission_denied)

-- `ControlPlaneAuthorizer.require`
unfoldable pub require :
    Directory → VerifiedSubjectIdentity → String → Permission → Bool → Result (Unit {0})
require d i tenant_id permission allow_suspended = do
  tenant ← tenant_of d tenant_id
  raise_if (is_suspended tenant.status && not allow_suspended)
      (authorization_denied Code.tenant_suspended)
  if is_platform_admin d i then require_platform_admin d i else do
    raise_if (not (i.tenant_id == tenant_id)) (authorization_denied Code.tenant_isolation_violation)
    permissions ← effective_permissions d tenant_id i.subject allow_suspended
    require_permission permission permissions
