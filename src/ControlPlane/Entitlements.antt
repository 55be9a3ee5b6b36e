-- ===== src/ControlPlane/Entitlements.antt =====
-- services/platform_control_plane/entitlements.py: `RepositoryEntitlementLookup`. The entitlement
-- repository is a parameter: what its `snapshot` returns or raises for a tenant.
use uwo_shared_platform.Prelude.{String, not, Option, none, some, List, map}
use uwo_shared_platform.Prelude.Int.{ℤ}
use uwo_shared_platform.Prelude.Keys.{string_eq}
use uwo_shared_platform.Prelude.Dict.{Dict, get}
use uwo_shared_platform.Errors.{
  Code, Result, ok, err, authorization_denied, resource_not_found, raise_if, ◌>>=◌, ◌>>◌,
}
use uwo_shared_platform.Contracts.Domain.{Product, product_value, Tenant, is_suspended}
use uwo_shared_platform.ControlPlane.Authorization.{is_in}

pub record ProductEntitlement : Type 0 where
  pub entitlement_id : String
  pub tenant_id : String
  pub product : Product
  pub granted_at : String
  pub granted_by : String
  pub version : ℤ

pub record ModelEntitlement : Type 0 where
  pub entitlement_id : String
  pub tenant_id : String
  pub model : String
  pub granted_at : String
  pub granted_by : String
  pub version : ℤ

pub record EntitlementSnapshot : Type 0 where
  pub tenant_id : String
  pub products : List ProductEntitlement
  pub models : List ModelEntitlement
  pub version : ℤ

pub record EffectiveEntitlements : Type 0 where
  pub tenant_id : String
  pub products : List String
  pub models : List String
  pub version : ℤ

module _ (tenants : Dict String Tenant) (snapshot : String → Result EntitlementSnapshot) where
  abbrev of_tenant : String → Option Tenant → Result EffectiveEntitlements
  of_tenant tenant_id none = err (resource_not_found Code.unknown_tenant)
  of_tenant tenant_id (some tenant) = do
    raise_if (is_suspended tenant.status) (authorization_denied Code.tenant_suspended)
    items ← snapshot tenant_id
    ok (record {
      tenant_id = tenant_id;
      products = map (λ item. product_value item.product) items.products;
      models = map (λ item. item.model) items.models;
      version = items.version;
    })

  unfoldable pub get_effective_entitlements : String → Result EffectiveEntitlements
  get_effective_entitlements tenant_id = of_tenant tenant_id (get tenants tenant_id)

  unfoldable pub authorize : String → Product → String → Result (Unit {0})
  unfolding get_effective_entitlements
  authorize tenant_id product model = do
    effective ← get_effective_entitlements tenant_id
    raise_if (not (is_in (product_value product) effective.products))
        (authorization_denied Code.product_not_entitled)
    raise_if (not (is_in model effective.models)) (authorization_denied Code.model_not_entitled)
