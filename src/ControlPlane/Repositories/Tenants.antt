-- ===== src/ControlPlane/Repositories/Tenants.antt =====
-- `InMemoryTenantRepository`.
use uwo_shared_platform.Prelude.{ℕ, String, not, Option}
use uwo_shared_platform.Prelude.Int.{ℤ, ◌==ℤ◌}
use uwo_shared_platform.Prelude.Keys.{string_eq}
use uwo_shared_platform.Prelude.Dict
use uwo_shared_platform.Errors.{Code, conflict, resource_not_found}
use uwo_shared_platform.Contracts.Domain.{Tenant}
use uwo_shared_platform.ControlPlane.World.{Db, FailurePoint, Page}
use uwo_shared_platform.ControlPlane.Repositories.Pages.{list_page}
use uwo_shared_platform.ControlPlane.Action.{
  Act, return, reads, gets, or_raise, raise_when, write_db, trigger, ◌>>=◌, ◌>>◌,
}

abbrev pub get : String → Act (Option Tenant)
get tenant_id = gets (λ w. Dict.get w.db.tenants tenant_id)

-- `self._items[tenant.tenant_id] = tenant`
unfoldable pub store : Tenant → Db → Db
store t db = record db { tenants = Dict.set db.tenants t.tenant_id t }

unfoldable pub create : Tenant → Act Tenant
create t = do
  raise_when (← gets (λ w. Dict.contains w.db.tenants t.tenant_id)) (conflict Code.tenant_exists)
  write_db (store t)
  trigger FailurePoint.tenant_write
  return t

unfoldable pub update : Tenant → ℤ → Act Tenant
update t expected_version = do
  found ← get t.tenant_id
  current ← or_raise found (resource_not_found Code.unknown_tenant)
  raise_when (not (current.version ==ℤ expected_version)) (conflict Code.stale_version)
  write_db (store t)
  return t

abbrev pub list : ℕ → Option String → Act Page
list limit cursor = reads (λ w. list_page w.db.tenants limit cursor)
