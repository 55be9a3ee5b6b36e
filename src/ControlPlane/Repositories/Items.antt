-- ===== src/ControlPlane/Repositories/Items.antt =====
-- The pure part of `InMemoryEntitlementRepository`. What the calls for products and for models share
-- is written once, over the key of the item.
use uwo_shared_platform.Prelude.{String, Bool, not, Option, none, some}
use uwo_shared_platform.Prelude.Int.{ℤ, pos, ◌+ℤ◌, ◌==ℤ◌}
use uwo_shared_platform.Prelude.Keys.{Eq, string_eq}
use uwo_shared_platform.Prelude.Dict
use uwo_shared_platform.Prelude.Dict.{Dict, values}
use uwo_shared_platform.Prelude.Sorting.{sorted_by}
use uwo_shared_platform.Errors.{
  Code, Result, ok, err, key_error, conflict, resource_not_found, make, raise_if, ◌>>=◌, ◌>>◌,
}
use uwo_shared_platform.Contracts.Domain.{product_value}
use uwo_shared_platform.ControlPlane.Entitlements.{EntitlementSnapshot}
use uwo_shared_platform.ControlPlane.World.{EntitlementStore}

-- the value under a key that must be there
abbrev pub or_key_error {ℓ} : {A : Type ℓ} → Option A → Result A
or_key_error none = err key_error
or_key_error (some a) = ok a

abbrev pub version_of : Option ℤ → Result ℤ
version_of none = err (resource_not_found Code.unknown_tenant)
version_of (some v) = ok v

unfoldable pub snapshot_of : EntitlementStore → String → Result EntitlementSnapshot
snapshot_of s tenant_id = do
  version ← version_of (Dict.get s.versions tenant_id)
  products ← or_key_error (Dict.get s.products tenant_id)
  models ← or_key_error (Dict.get s.models tenant_id)
  ok (record {
    tenant_id = tenant_id;
    products = sorted_by (λ e. product_value e.product) (values products);
    models = sorted_by (λ e. e.model) (values models);
    version = version;
  })

module _ {K V : Type 0} ⦃e : Eq K⦄ where
  -- the tests of a grant, the item with the next version, and the items with it
  unfoldable pub granted :
      Option ℤ → Option (Dict K V) → K → (ℤ → V) → (V → Bool) → ℤ → Result (V × (Dict K V × ℤ))
  granted version items key item valid expected_version = do
    v ← version_of version
    raise_if (not (v ==ℤ expected_version)) (conflict Code.stale_version)
    d ← or_key_error items
    raise_if (Dict.contains d key) (conflict Code.entitlement_exists)
    stored ← make (valid (item (v +ℤ pos 1))) (item (v +ℤ pos 1))
    ok (stored, (Dict.set d key stored, v +ℤ pos 1))

  -- the tests of a revocation, and the items without the key
  unfoldable pub revoked : Option ℤ → Option (Dict K V) → K → ℤ → Result (Dict K V × ℤ)
  revoked version items key expected_version = do
    v ← version_of version
    raise_if (not (v ==ℤ expected_version)) (conflict Code.stale_version)
    d ← or_key_error items
    raise_if (not (Dict.contains d key)) (resource_not_found Code.unknown_entitlement)
    ok (Dict.delete d key, v +ℤ pos 1)
