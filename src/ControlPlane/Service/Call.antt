-- ===== src/ControlPlane/Service/Call.antt =====
-- The calls of `PlatformControlPlane` that change the repositories, with their arguments; `perform`
-- drops the result and keeps the exception.
use uwo_shared_platform.Prelude.{String, List, [], ◌∷◌}
use uwo_shared_platform.Prelude.Int.{ℤ}
use uwo_shared_platform.Env.{Env}
use uwo_shared_platform.Contracts.Domain.{
  MembershipStatus, Product, TenantStatus, VerifiedSubjectIdentity,
}
use uwo_shared_platform.ControlPlane.{Directory}
use uwo_shared_platform.ControlPlane.World.{World}
use uwo_shared_platform.ControlPlane.Service.Tenants
use uwo_shared_platform.ControlPlane.Service.Members
use uwo_shared_platform.ControlPlane.Service.Entitlements
use uwo_shared_platform.ControlPlane.Action.{Act, return, ◌>>=◌}

-- The last argument of a call is its request identifier, and the one before the idempotency key
-- where there is one.
pub data Call : Type 0 where
  create_tenant : String → String → String → String → String → Call
  set_tenant_status : String → TenantStatus → ℤ → String → Call
  put_membership : String → String → MembershipStatus → ℤ → String → Call
  assign_role revoke_role : String → String → String → ℤ → String → Call
  grant_product : String → Product → ℤ → String → String → Call
  revoke_product : String → Product → ℤ → String → Call
  grant_model : String → String → ℤ → String → String → Call
  revoke_model : String → String → ℤ → String → Call

abbrev pub drop_result : {A : Type 0} → Act A → Act (Unit {0})
drop_result m = do _ ← m; return tt

module _ ⦃env : Env⦄ (fixed : Directory) where
  unfoldable pub perform : VerifiedSubjectIdentity → Call → Act (Unit {0})
  perform i (Call.create_tenant t name region key request_id) =
      drop_result (Tenants.create_tenant fixed i t name region key request_id)
  perform i (Call.set_tenant_status t status v request_id) =
      drop_result (Tenants.set_tenant_status fixed i t status v request_id)
  perform i (Call.put_membership t subject status v request_id) =
      drop_result (Members.put_membership fixed i t subject status v request_id)
  perform i (Call.assign_role t subject role_id v request_id) =
      drop_result (Members.assign_role fixed i t subject role_id v request_id)
  perform i (Call.revoke_role t subject role_id v request_id) =
      drop_result (Members.revoke_role fixed i t subject role_id v request_id)
  perform i (Call.grant_product t product v key request_id) =
      drop_result (Entitlements.grant_product fixed i t product v key request_id)
  perform i (Call.revoke_product t product v request_id) =
      drop_result (Entitlements.revoke_product fixed i t product v request_id)
  perform i (Call.grant_model t model v key request_id) =
      drop_result (Entitlements.grant_model fixed i t model v key request_id)
  perform i (Call.revoke_model t model v request_id) =
      drop_result (Entitlements.revoke_model fixed i t model v request_id)

  -- calls one after the other, by who makes them
  unfoldable pub perform_all : List (VerifiedSubjectIdentity × Call) → World → World
  unfolding perform
  perform_all [] w = w
  perform_all ((i, c) ∷ cs) w = perform_all cs (perform i c w).1
