-- ===== src/ControlPlane/Service.antt =====
-- services/platform_control_plane/service.py: `PlatformControlPlane`. The role catalogue, the
-- identity directory and the administrators do not change; the tenants and the memberships that the
-- authorizer reads are those of the repositories.
pub mod Common
pub mod Tenants
pub mod Members
pub mod Entitlements
pub mod Call
