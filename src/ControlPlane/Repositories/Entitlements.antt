-- ===== src/ControlPlane/Repositories/Entitlements.antt =====
-- `InMemoryEntitlementRepository`: for each tenant its products, its models and one version.
use uwo_shared_platform.Prelude.{String, []}
use uwo_shared_platform.Prelude.Int.{ℤ, pos}
use uwo_shared_platform.Prelude.Keys.{string_eq}
use uwo_shared_platform.Prelude.Dict
use uwo_shared_platform.Prelude.Dict.{Dict}
use uwo_shared_platform.Errors.{Code, conflict}
use uwo_shared_platform.Env.{Env}
use uwo_shared_platform.Contracts.Domain.{Product}
use uwo_shared_platform.ControlPlane.Entitlements.{
  EntitlementSnapshot, ModelEntitlement, ProductEntitlement,
}
use uwo_shared_platform.ControlPlane.Checks.{model_entitlement_valid, product_entitlement_valid}
use uwo_shared_platform.ControlPlane.World.{EntitlementStore, FailurePoint, product_eq}
use uwo_shared_platform.ControlPlane.Repositories.Items.{granted, revoked, snapshot_of}
use uwo_shared_platform.ControlPlane.Action.{
  Act, return, lift, reads, gets, raise_when, write_db, trigger, ◌>>=◌, ◌>>◌,
}

abbrev pub write : EntitlementStore → Act (Unit {0})
write s = write_db (λ db. record db { entitlements = s })

unfoldable pub initialize : String → Act (Unit {0})
initialize tenant_id = do
  s ← gets (λ w. w.db.entitlements)
  raise_when (Dict.contains s.versions tenant_id) (conflict Code.entitlement_aggregate_exists)
  write (record {
    products = Dict.set s.products tenant_id [];
    models = Dict.set s.models tenant_id [];
    versions = Dict.set s.versions tenant_id (pos 1);
  })
  trigger FailurePoint.entitlement_initialization

abbrev pub snapshot : String → Act EntitlementSnapshot
snapshot tenant_id = reads (λ w. snapshot_of w.db.entitlements tenant_id)

abbrev pub with_products :
    EntitlementStore → String → Dict Product ProductEntitlement × ℤ → EntitlementStore
with_products s tenant_id (d, v) = record s {
  products = Dict.set s.products tenant_id d;
  versions = Dict.set s.versions tenant_id v;
}

abbrev pub with_models :
    EntitlementStore → String → Dict String ModelEntitlement × ℤ → EntitlementStore
with_models s tenant_id (d, v) = record s {
  models = Dict.set s.models tenant_id d;
  versions = Dict.set s.versions tenant_id v;
}

module _ ⦃env : Env⦄ where
  unfoldable pub grant_product : ProductEntitlement → ℤ → Act ProductEntitlement
  grant_product item expected_version = do
    s ← gets (λ w. w.db.entitlements)
    (stored, items) ← lift (
        granted (Dict.get s.versions item.tenant_id) (Dict.get s.products item.tenant_id)
          item.product (λ v. record item { version = v }) product_entitlement_valid
          expected_version)
    write (with_products s item.tenant_id items)
    return stored

  unfoldable pub grant_model : ModelEntitlement → ℤ → Act ModelEntitlement
  grant_model item expected_version = do
    s ← gets (λ w. w.db.entitlements)
    (stored, items) ← lift (
        granted (Dict.get s.versions item.tenant_id) (Dict.get s.models item.tenant_id) item.model
          (λ v. record item { version = v }) model_entitlement_valid expected_version)
    write (with_models s item.tenant_id items)
    return stored

unfoldable pub revoke_product : String → Product → ℤ → Act EntitlementSnapshot
revoke_product tenant_id product expected_version = do
  s ← gets (λ w. w.db.entitlements)
  items ← lift (
      revoked (Dict.get s.versions tenant_id) (Dict.get s.products tenant_id) product
        expected_version)
  write (with_products s tenant_id items)
  snapshot tenant_id

unfoldable pub revoke_model : String → String → ℤ → Act EntitlementSnapshot
revoke_model tenant_id model expected_version = do
  s ← gets (λ w. w.db.entitlements)
  items ←
      lift (
        revoked (Dict.get s.versions tenant_id) (Dict.get s.models tenant_id) model
          expected_version)
  write (with_models s tenant_id items)
  snapshot tenant_id
