-- ===== src/Billing/Authorizer.antt =====
-- services/platform_billing/authorization.py: who may read, administer and execute billing. The
-- errors of the control plane keep their class and code when they are translated.
use uwo_shared_platform.Prelude.{String, Bool, not, ◌&&◌, none, some}
use uwo_shared_platform.Prelude.Keys.{string_eq}
use uwo_shared_platform.Prelude.Dict.{get}
use uwo_shared_platform.Errors.{
  Code, Result, ok, err, authorization_denied, resource_not_found, raise_if, ◌>>=◌, ◌>>◌,
}
use uwo_shared_platform.Contracts.Domain.{Tenant, VerifiedSubjectIdentity, is_suspended}
use uwo_shared_platform.ControlPlane.{Directory}
use uwo_shared_platform.ControlPlane.Authorization
use uwo_shared_platform.ControlPlane.Authorization.{Permission, is_in, subject_exists}

abbrev pub require_platform_admin : Directory → VerifiedSubjectIdentity → Result (Unit {0})
require_platform_admin = Authorization.require_platform_admin

abbrev pub require_read : Directory → VerifiedSubjectIdentity → String → Result (Unit {0})
require_read d i tenant_id = Authorization.require d i tenant_id Permission.billing_read Bool.true

abbrev known_tenant : Directory → String → Result Tenant
known_tenant d tenant_id = elim (get d.tenants tenant_id) [
  | none ↦ err (resource_not_found Code.unknown_tenant)
  | some t ↦ ok t
]

unfoldable pub require_executor :
    Directory → VerifiedSubjectIdentity → String → Bool → Result (Unit {0})
require_executor d i tenant_id allow_suspended = do
  tenant ← known_tenant d tenant_id
  raise_if (is_suspended tenant.status && not allow_suspended)
      (authorization_denied Code.tenant_suspended)
  raise_if (not (subject_exists d i.subject)) (authorization_denied Code.deprovisioned_subject)
  raise_if (not (is_in i.subject d.trusted_executor_subjects))
      (authorization_denied Code.billing_executor_required)

unfoldable pub require_active_tenant : Directory → String → Result (Unit {0})
require_active_tenant d tenant_id = do
  tenant ← known_tenant d tenant_id
  raise_if (is_suspended tenant.status) (authorization_denied Code.tenant_suspended)
