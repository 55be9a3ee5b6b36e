-- ===== src/ControlPlane/Service/Members.antt =====
-- `PlatformControlPlane`: memberships and roles. A write here is one call of the repository, outside
-- a unit of work.
use Prim.Native.String.{◌++◌}
use uwo_shared_platform.Prelude.{
  String, Bool, true, false, not, ◌||◌, Option, none, some, is_none, List, [], ◌∷◌, if◌then◌else◌,
}
use uwo_shared_platform.Prelude
use uwo_shared_platform.Prelude.Int.{ℤ, pos, ◌+ℤ◌, ◌==ℤ◌}
use uwo_shared_platform.Prelude.Keys.{string_eq, pair_eq, ◌==◌}
use uwo_shared_platform.Prelude.Dict
use uwo_shared_platform.Prelude.Sorting.{sorted}
use uwo_shared_platform.Errors.{Code, Error, authorization_denied, conflict, resource_not_found}
use uwo_shared_platform.Env.{Env}
use uwo_shared_platform.Contracts.Domain.{
  MembershipStatus, TenantMembership, VerifiedSubjectIdentity,
}
use uwo_shared_platform.ControlPlane.{Directory}
use uwo_shared_platform.ControlPlane.Authorization
use uwo_shared_platform.ControlPlane.Authorization.{Permission, is_in, subject_exists}
use uwo_shared_platform.ControlPlane.Checks.{membership_valid}
use uwo_shared_platform.ControlPlane.World.{MembershipMutationResult}
use uwo_shared_platform.ControlPlane.Repositories.Memberships
use uwo_shared_platform.ControlPlane.Service.Common.{directory_of, require, succeeded}
use uwo_shared_platform.ControlPlane.Action.{
  Act, return, reads, or_raise, construct, contract, raise_when, read_clock, emit, ◌>>=◌, ◌>>◌,
}

-- `status.value`
abbrev pub membership_status_value : MembershipStatus → String
membership_status_value MembershipStatus.active = "active"
membership_status_value MembershipStatus.suspended = "suspended"

abbrev pub new_membership : String → String → MembershipStatus → String → TenantMembership
new_membership tenant_id subject status timestamp = record {
  membership_id = "membership:" ++ tenant_id ++ ":" ++ subject;
  tenant_id = tenant_id;
  subject = subject;
  status = status;
  role_ids = [];
  created_at = timestamp;
  updated_at = timestamp;
  version = pos 1;
}

abbrev pub with_status : TenantMembership → MembershipStatus → String → TenantMembership
with_status m status timestamp = record m {
  status = status;
  updated_at = timestamp;
  version = m.version +ℤ pos 1;
}

abbrev pub with_roles : TenantMembership → List String → String → TenantMembership
with_roles m role_ids timestamp = record m {
  role_ids = role_ids;
  updated_at = timestamp;
  version = m.version +ℤ pos 1;
}

-- `tuple(item for item in role_ids if item != role_id)`
unfoldable pub without : String → List String → List String
without role_id [] = []
without role_id (id ∷ ids) =
    let rest = without role_id ids in if id == role_id then rest else id ∷ rest

-- the error for a subject that the identity directory does not know
abbrev pub unverified : Option TenantMembership → Error
unverified none = resource_not_found Code.unknown_subject
unverified (some _) = authorization_denied Code.deprovisioned_subject

abbrev pub changed : TenantMembership → Bool → MembershipMutationResult
changed m created = record { membership = m; created = created }

module _ ⦃env : Env⦄ where
  unfoldable pub write_membership :
      String
      → String
      → MembershipStatus
      → ℤ
      → String
      → Option TenantMembership
      → Act MembershipMutationResult
  write_membership tenant_id subject status expected_version timestamp none = do
    raise_when (not (expected_version ==ℤ pos 0)) (conflict Code.stale_version)
    let m = new_membership tenant_id subject status timestamp
    membership ← contract (membership_valid m) m
    result ← Memberships.create membership
    return (changed result true)
  write_membership tenant_id subject status expected_version timestamp (some current) = do
    raise_when (expected_version ==ℤ pos 0) (conflict Code.membership_exists)
    let m = with_status current status timestamp
    membership ← construct (membership_valid m) m
    result ← Memberships.update membership expected_version
    return (changed result false)

module _ ⦃env : Env⦄ (fixed : Directory) where
  unfoldable pub put_membership :
      VerifiedSubjectIdentity
      → String
      → String
      → MembershipStatus
      → ℤ
      → String
      → Act MembershipMutationResult
  put_membership identity tenant_id subject status expected_version request_id = do
    require fixed identity tenant_id Permission.membership_manage false
    current ← Memberships.get tenant_id subject
    raise_when (not (subject_exists fixed subject)) (unverified current)
    timestamp ← read_clock
    result ← write_membership tenant_id subject status expected_version timestamp current
    emit (
        succeeded "membership.changed" request_id identity tenant_id (some subject)
          (some (membership_status_value status)))
    return result

  -- `_target_membership`
  unfoldable pub target_membership : String → String → Act TenantMembership
  target_membership tenant_id subject = do
    found ← Memberships.get tenant_id subject
    membership ← or_raise found (resource_not_found Code.unknown_subject)
    raise_when (not (subject_exists fixed subject))
        (authorization_denied Code.deprovisioned_subject)
    return membership

  unfoldable pub assign_role :
      VerifiedSubjectIdentity → String → String → String → ℤ → String → Act TenantMembership
  assign_role identity tenant_id subject role_id expected_version request_id = do
    require fixed identity tenant_id Permission.role_manage false
    membership ← target_membership tenant_id subject
    raise_when (is_none (Dict.get fixed.roles role_id)) (resource_not_found Code.unknown_role)
    raise_when (is_in role_id membership.role_ids) (conflict Code.role_assignment_exists)
    timestamp ← read_clock
    let m =
        with_roles membership (sorted (Prelude.◌++◌ membership.role_ids (role_id ∷ []))) timestamp
    updated ← construct (membership_valid m) m
    result ← Memberships.update updated expected_version
    emit (succeeded "role.assigned" request_id identity tenant_id (some subject) (some role_id))
    return result

  unfoldable pub revoke_role :
      VerifiedSubjectIdentity → String → String → String → ℤ → String → Act TenantMembership
  revoke_role identity tenant_id subject role_id expected_version request_id = do
    require fixed identity tenant_id Permission.role_manage false
    membership ← target_membership tenant_id subject
    raise_when (is_none (Dict.get fixed.roles role_id)) (resource_not_found Code.unknown_role)
    raise_when (not (is_in role_id membership.role_ids)) (conflict Code.role_assignment_missing)
    timestamp ← read_clock
    let m = with_roles membership (without role_id membership.role_ids) timestamp
    updated ← construct (membership_valid m) m
    result ← Memberships.update updated expected_version
    emit (succeeded "role.revoked" request_id identity tenant_id (some subject) (some role_id))
    return result

  unfoldable pub effective_permissions :
      VerifiedSubjectIdentity → String → String → Act (List String)
  effective_permissions identity tenant_id subject = do
    require fixed identity tenant_id Permission.role_manage false
    reads
        (λ w. Authorization.effective_permissions (directory_of fixed w.db) tenant_id subject false)
