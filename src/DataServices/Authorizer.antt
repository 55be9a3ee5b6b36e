-- ===== src/DataServices/Authorizer.antt =====
-- `DataServiceAuthorizer` of services/data_service_common.py. The errors of the control plane keep
-- their class and code when they are translated.
use uwo_shared_platform.Prelude.{String, Bool, not, ◌&&◌, Option, none, some, List}
use uwo_shared_platform.Prelude.Keys.{string_eq}
use uwo_shared_platform.Prelude.Dict.{get}
use uwo_shared_platform.Errors.{
  Code, Result, ok, err, authorization_denied, resource_not_found, raise_if, ◌>>=◌, ◌>>◌,
}
use uwo_shared_platform.Contracts.Domain.{Tenant, VerifiedSubjectIdentity, is_suspended}
use uwo_shared_platform.ControlPlane.{Directory}
use uwo_shared_platform.ControlPlane.Authorization as ControlPlaneAuthorizer
use uwo_shared_platform.ControlPlane.Authorization.{Permission, is_in, subject_exists}

-- the directory of the control plane, and the executors of the service
pub record DataServiceAuthorizer : Type 0 where
  pub directory : Directory
  pub executors : List String

unfoldable pub require :
    DataServiceAuthorizer → VerifiedSubjectIdentity → String → Permission → Bool → Result (Unit {0})
require a identity tenant_id permission allow_suspended =
    ControlPlaneAuthorizer.require a.directory identity tenant_id permission allow_suspended

unfoldable pub require_platform_admin :
    DataServiceAuthorizer → VerifiedSubjectIdentity → Result (Unit {0})
require_platform_admin a identity =
    ControlPlaneAuthorizer.require_platform_admin a.directory identity

abbrev tenant_or_raise : Option Tenant → Result Tenant
tenant_or_raise none = err (resource_not_found Code.unknown_tenant)
tenant_or_raise (some tenant) = ok tenant

unfoldable pub require_executor :
    DataServiceAuthorizer → VerifiedSubjectIdentity → String → Bool → Result (Unit {0})
require_executor a identity tenant_id allow_suspended = do
  tenant ← tenant_or_raise (get a.directory.tenants tenant_id)
  raise_if (is_suspended tenant.status && not allow_suspended)
      (authorization_denied Code.tenant_suspended)
  raise_if (not (subject_exists a.directory identity.subject))
      (authorization_denied Code.deprovisioned_subject)
  raise_if (not (is_in identity.subject a.executors))
      (authorization_denied Code.service_executor_required)
