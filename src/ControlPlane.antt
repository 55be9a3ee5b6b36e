-- ===== src/ControlPlane.antt =====
-- services/platform_control_plane. The directory below is what other services read of it: who may do
-- what. The modules of the control plane model the service that writes it.
pub mod Authorization
pub mod Entitlements
pub mod World
pub mod Action
pub mod Checks
pub mod Repositories
pub mod Service
pub mod Ends
pub mod Versions
pub mod Invariant
pub mod Replay
pub mod RoundTrip
pub mod Entitled
pub mod StatusChange
use uwo_shared_platform.Prelude.{String, List}
use uwo_shared_platform.Prelude.Dict.{Dict}
use uwo_shared_platform.Contracts.Domain.{Tenant, TenantMembership, Role}

pub record Directory : Type 0 where
  pub tenants : Dict String Tenant
  pub memberships : Dict (String × String) TenantMembership
  pub roles : Dict String Role
  -- the subjects of the identity directory, and the platform administrators
  pub subjects : List String
  pub platform_admin_subjects : List String
  -- the trusted executors that the billing authorizer is given
  pub trusted_executor_subjects : List String
