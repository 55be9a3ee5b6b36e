-- ===== src/ControlPlane/Repositories.antt =====
-- The repositories of services/platform_control_plane/in_memory.py. The locks guard single calls,
-- which are the steps here.
pub mod Items
pub mod Pages
pub mod Tenants
pub mod Memberships
pub mod Entitlements
pub mod Policies
pub mod Idempotency
