-- ===== src/ControlPlane/Repositories/Memberships.antt =====
-- `InMemoryMembershipRepository`.
use uwo_shared_platform.Prelude.{String, not, Option}
use uwo_shared_platform.Prelude.Int.{ℤ, ◌==ℤ◌}
use uwo_shared_platform.Prelude.Keys.{string_eq, pair_eq}
use uwo_shared_platform.Prelude.Dict
use uwo_shared_platform.Errors.{Code, conflict, resource_not_found}
use uwo_shared_platform.Contracts.Domain.{TenantMembership}
use uwo_shared_platform.ControlPlane.World.{Db}
use uwo_shared_platform.ControlPlane.Action.{
  Act, return, gets, or_raise, raise_when, write_db, ◌>>=◌, ◌>>◌,
}

abbrev pub get : String → String → Act (Option TenantMembership)
get tenant_id subject = gets (λ w. Dict.get w.db.memberships (tenant_id, subject))

-- `self._items[key] = membership`
unfoldable pub store : TenantMembership → Db → Db
store m db = record db { memberships = Dict.set db.memberships (m.tenant_id, m.subject) m }

unfoldable pub create : TenantMembership → Act TenantMembership
create m = do
  raise_when (← gets (λ w. Dict.contains w.db.memberships (m.tenant_id, m.subject)))
      (conflict Code.membership_exists)
  write_db (store m)
  return m

unfoldable pub update : TenantMembership → ℤ → Act TenantMembership
update m expected_version = do
  found ← get m.tenant_id m.subject
  current ← or_raise found (resource_not_found Code.unknown_membership)
  raise_when (not (current.version ==ℤ expected_version)) (conflict Code.stale_version)
  write_db (store m)
  return m
