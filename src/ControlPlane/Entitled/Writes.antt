-- ===== src/ControlPlane/Entitled/Writes.antt =====
-- What grants and revocations of `InMemoryEntitlementRepository` write.
use uwo_shared_platform.Prelude.{String, ◌≡◌, some, arith, inl, inr, Option-cases}
use uwo_shared_platform.Prelude.Keys.{string_eq}
use uwo_shared_platform.Prelude.Dict.{Dict, get, set, delete, get-set_self}
use uwo_shared_platform.Prelude.Int.{ℤ}
use uwo_shared_platform.Errors.{ok, Result-cases}
use uwo_shared_platform.Env.{Env}
use uwo_shared_platform.Contracts.Domain.{Product}
use uwo_shared_platform.ControlPlane.Entitlements.{
  ProductEntitlement, ModelEntitlement, EntitlementSnapshot,
}
use uwo_shared_platform.ControlPlane.World.{World, product_eq}
use uwo_shared_platform.ControlPlane.Action.{◌>>=◌}
use uwo_shared_platform.ControlPlane.Checks.{model_entitlement_valid, product_entitlement_valid}
use uwo_shared_platform.ControlPlane.Repositories.Items.{granted, revoked, snapshot_of}
use uwo_shared_platform.ControlPlane.Repositories.Entitlements
use uwo_shared_platform.ControlPlane.Invariant.Entitlements.{granted-ok, revoked-ok}

module _ ⦃env : Env⦄ where
  pub grant_product-writes :
      (item : ProductEntitlement) (v : ℤ) (w : World) {stored : ProductEntitlement} {w' : World}
      → Entitlements.grant_product item v w ≡ (ok stored, w')
      → (d : Dict Product ProductEntitlement) × (stored.product ≡ item.product)
        × (w'.db.tenants ≡ w.db.tenants)
        × (get w'.db.entitlements.products item.tenant_id ≡ some (set d item.product stored))
  unfolding Entitlements.grant_product ◌>>=◌
  grant_product-writes item v w {stored} {w'} h =
      elim (Result-cases (
        granted (get w.db.entitlements.versions item.tenant_id)
          (get w.db.entitlements.products item.tenant_id) item.product
          (λ n. record item { version = n }) product_entitlement_valid v)) [
            | inr (x, failed) ↦ absurd (ground (arith, h, failed))
            | inl (r, taken) ↦
                let (u, d, now, there, expected, absent, same) =
                  granted-ok _ _ item.product _ product_entitlement_valid v taken in
                (
                  d,
                  ground (arith, same),
                  ground (arith, same),
                  ground
                      (arith, same, get-set_self w.db.entitlements.products item.tenant_id r.1.0),
                )
          ]

  pub grant_model-writes :
      (item : ModelEntitlement) (v : ℤ) (w : World) {stored : ModelEntitlement} {w' : World}
      → Entitlements.grant_model item v w ≡ (ok stored, w')
      → (d : Dict String ModelEntitlement) × (n : ℤ) × (stored.model ≡ item.model)
        × (w'.db.tenants ≡ w.db.tenants)
        × (w'.db.entitlements.products ≡ w.db.entitlements.products)
        × (get w'.db.entitlements.models item.tenant_id ≡ some (set d item.model stored))
        × (get w'.db.entitlements.versions item.tenant_id ≡ some n)
  unfolding Entitlements.grant_model ◌>>=◌
  grant_model-writes item v w {stored} {w'} h =
      elim (Result-cases (
        granted (get w.db.entitlements.versions item.tenant_id)
          (get w.db.entitlements.models item.tenant_id) item.model
          (λ n. record item { version = n }) model_entitlement_valid v)) [
            | inr (x, failed) ↦ absurd (ground (arith, h, failed))
            | inl (r, taken) ↦
                let (u, d, now, there, expected, absent, same) =
                  granted-ok _ _ item.model _ model_entitlement_valid v taken in
                (
                  d,
                  r.1.1,
                  ground (arith, same),
                  ground (arith, same),
                  ground (arith, same),
                  ground (arith, same, get-set_self w.db.entitlements.models item.tenant_id r.1.0),
                  ground
                      (arith, same, get-set_self w.db.entitlements.versions item.tenant_id r.1.1),
                )
          ]

pub revoke_product-writes :
    (t : String) (product : Product) (v : ℤ) (w : World) {s : EntitlementSnapshot} {w' : World}
    → Entitlements.revoke_product t product v w ≡ (ok s, w')
    → (d : Dict Product ProductEntitlement) × (n : ℤ) × (ms : Dict String ModelEntitlement) × (get
          w.db.entitlements.products t
        ≡ some d)
      × (w'.db.tenants ≡ w.db.tenants)
      × (get w'.db.entitlements.products t ≡ some (delete d product))
      × (get w'.db.entitlements.models t ≡ some ms)
      × (get w'.db.entitlements.versions t ≡ some n)
unfolding Entitlements.revoke_product ◌>>=◌ snapshot_of
revoke_product-writes t product v w {s} {w'} h =
    elim (Result-cases
      (revoked (get w.db.entitlements.versions t) (get w.db.entitlements.products t) product v)) [
        | inr (x, failed) ↦ absurd (ground (arith, h, failed))
        | inl (r, taken) ↦ elim (Option-cases (get w.db.entitlements.models t)) [
          | inl missing ↦ absurd (
              ground (
                arith,
                h,
                missing,
                get-set_self w.db.entitlements.products t r.0,
                get-set_self w.db.entitlements.versions t r.1,
              ))
          | inr (ms, there) ↦
              let (u, d, now, stands, expected, present, same) = revoked-ok _ _ product v taken in
              (
                d,
                r.1,
                ms,
                stands,
                ground arith,
                ground (arith, same, get-set_self w.db.entitlements.products t r.0),
                ground (arith, same),
                ground (arith, same, get-set_self w.db.entitlements.versions t r.1),
              )
        ]
      ]
