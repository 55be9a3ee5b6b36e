-- ===== src/ControlPlane/Entitled.antt =====
-- `RepositoryEntitlementLookup.authorize` over the repositories of the control plane: what grants and
-- revocations make of it.
pub mod Tables
pub mod Writes
use uwo_shared_platform.Prelude.{String, ◌≡◌, false, some, arith, ap, ◌∙◌, subst}
use uwo_shared_platform.Prelude.Keys.{string_eq}
use uwo_shared_platform.Prelude.Dict.{Dict, get, set}
use uwo_shared_platform.Prelude.Int.{ℤ}
use uwo_shared_platform.Errors.{Code, ok, err, authorization_denied}
use uwo_shared_platform.Env.{Env}
use uwo_shared_platform.Contracts.Domain.{Product, Tenant, is_suspended, product_value}
use uwo_shared_platform.ControlPlane.Entitlements.{
  ProductEntitlement, ModelEntitlement, EntitlementSnapshot, authorize,
}
use uwo_shared_platform.ControlPlane.World.{World, product_eq}
use uwo_shared_platform.ControlPlane.Repositories.Items.{snapshot_of}
use uwo_shared_platform.ControlPlane.Repositories.Entitlements
use uwo_shared_platform.ControlPlane.Entitled.Tables.{
  any-values-set, any-values-delete, names_product, names_model, authorize-tables, named-own,
  Arises, Arises-IsKeyed,
}
use uwo_shared_platform.ControlPlane.Entitled.Writes.{
  grant_product-writes, grant_model-writes, revoke_product-writes,
}

module _ ⦃env : Env⦄ where
  -- Once a product and a model are granted to a tenant that is not suspended, its use of the two
  -- together is authorized.
  pub authorize-granted :
      (p : ProductEntitlement) (m : ModelEntitlement) (u v : ℤ) (w : World) {x : Tenant}
      {stored_product : ProductEntitlement} {stored_model : ModelEntitlement} {w' w'' : World}
      → m.tenant_id ≡ p.tenant_id
      → get w.db.tenants p.tenant_id ≡ some x
      → is_suspended x.status ≡ false
      → Entitlements.grant_product p u w ≡ (ok stored_product, w')
      → Entitlements.grant_model m v w' ≡ (ok stored_model, w'')
      → authorize w''.db.tenants (snapshot_of w''.db.entitlements) p.tenant_id p.product m.model
        ≡ ok tt
  authorize-granted p m u v w {stored_product = a} {stored_model = b} {w'} {w''} same known active g
        h =
      let (d, product_is, tenants, products) = grant_product-writes p u w g in
      let (e, n, model_is, tenants', products', models, versioned) = grant_model-writes m v w' h in
      let product_named = any-values-set (names_product p.product) d p.product a (
        ground (
          arith,
          product_is,
          string_eq.beq_iff (product_value p.product) (product_value a.product),
        )) in
      let model_named =
        any-values-set (names_model m.model) e m.model b
          (ground (arith, model_is, string_eq.beq_iff m.model b.model)) in
      authorize-tables w''.db.tenants w''.db.entitlements p.tenant_id p.product m.model
        (ap (λ ts. get ts p.tenant_id) (tenants' ∙ tenants) ∙ known) active
        (subst (λ t. get w''.db.entitlements.versions t ≡ some n) same versioned)
        (ap (λ ps. get ps p.tenant_id) products' ∙ products)
        (subst (λ t. get w''.db.entitlements.models t ≡ some (set e m.model b)) same models)
      ∙ ground (arith, product_named, model_named)

-- Once a product is revoked, no use of it is authorized: of a tenant that is known and not suspended,
-- and whose table of products grants and revocations have made of an empty one, it raises that the
-- product is not entitled.
pub authorize-revoked :
    (t : String) (product : Product) (model : String) (v : ℤ) (w : World) {x : Tenant}
    {d : Dict Product ProductEntitlement} {s : EntitlementSnapshot} {w' : World}
    → get w.db.tenants t ≡ some x
    → is_suspended x.status ≡ false
    → get w.db.entitlements.products t ≡ some d
    → Arises d
    → Entitlements.revoke_product t product v w ≡ (ok s, w')
    → authorize w'.db.tenants (snapshot_of w'.db.entitlements) t product model
      ≡ err (authorization_denied Code.product_not_entitled)
authorize-revoked t product model v w {x} {d} {s} {w'} known active stands arisen h =
    let (d', n, ms, stood, tenants, products, models, versioned) =
      revoke_product-writes t product v w h in
    let same : d ≡ d' = ground arith in
    let gone =
      any-values-delete (names_product product) d product
        (named-own product d (Arises-IsKeyed arisen)) in
    authorize-tables w'.db.tenants w'.db.entitlements t product model
      (ap (λ ts. get ts t) tenants ∙ known) active versioned products models
    ∙ ground (arith, same, gone)
