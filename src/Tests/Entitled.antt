-- ===== src/Tests/Entitled.antt =====
-- The theorems on entitlements and the lookup, at a tenant with an entitlement.
use uwo_shared_platform.Prelude.{String, ◌≡◌, refl, false, none, [], ◌∷◌}
use uwo_shared_platform.Prelude.Int.{pos}
use uwo_shared_platform.Prelude.Dict.{get}
use uwo_shared_platform.Errors.{Code, ok, err, authorization_denied}
use uwo_shared_platform.Contracts.Domain.{Product}
use uwo_shared_platform.ControlPlane.Entitlements.{ProductEntitlement, ModelEntitlement, authorize}
use uwo_shared_platform.ControlPlane.World.{Db, World}
use uwo_shared_platform.ControlPlane.Repositories.Entitlements
use uwo_shared_platform.ControlPlane.Repositories.Items.{snapshot_of}
use uwo_shared_platform.ControlPlane.Entitled.{authorize-granted, authorize-revoked}
use uwo_shared_platform.ControlPlane.Entitled.Tables.{Arises}
use uwo_shared_platform.Tests.World.{tenant, test_env}

abbrev ads : ProductEntitlement
ads = record {
  entitlement_id = "e1";
  tenant_id = "t1";
  product = Product.ai_ads;
  granted_at = "T";
  granted_by = "admin";
  version = pos 2;
}

abbrev mall : ProductEntitlement
mall = record ads { entitlement_id = "e2"; product = Product.ai_mall }

abbrev large : ModelEntitlement
large = record {
  entitlement_id = "e3";
  tenant_id = "t1";
  model = "large";
  granted_at = "T";
  granted_by = "admin";
  version = pos 1;
}

-- the tenant has one product
abbrev with_ads : World
with_ads = record {
  db = record {
    tenants = ("t1", tenant) ∷ [];
    memberships = [];
    entitlements = record {
      products = ("t1", (Product.ai_ads, ads) ∷ []) ∷ [];
      models = ("t1", []) ∷ [];
      versions = ("t1", pos 2) ∷ [];
    };
    policies = [];
    idempotency = [];
    outbox = [];
  };
  failing = none;
  committed = false;
  ticks = 0;
  audit = [];
}

abbrev with_mall : World
with_mall = (Entitlements.grant_product mall (pos 2) with_ads).1

abbrev with_large : World
with_large = (Entitlements.grant_model large (pos 3) with_mall).1

authorize-granted_example :
    authorize with_large.db.tenants
      (snapshot_of with_large.db.entitlements)
      "t1"
      Product.ai_mall
      "large"
    ≡ ok tt
unfolding get Entitlements.grant_product uwo_shared_platform.ControlPlane.Action.◌>>=◌
    uwo_shared_platform.ControlPlane.Repositories.Items.granted
    uwo_shared_platform.ControlPlane.World.Product-discrete
    uwo_shared_platform.ControlPlane.Checks.product_entitlement_valid
    uwo_shared_platform.Contracts.Text.is_identifier uwo_shared_platform.Env.is_utc
    uwo_shared_platform.Prelude.Int.◌+ℤ◌ Entitlements.grant_model
    uwo_shared_platform.Prelude.Dict.set
    uwo_shared_platform.ControlPlane.Checks.model_entitlement_valid
authorize-granted_example =
    authorize-granted mall large (pos 2) (pos 3) with_ads {x = tenant}
      {stored_product = record mall { version = pos 3 }}
      {stored_model = record large { version = pos 4 }} {w' = with_mall} {w'' = with_large} refl
      refl refl refl refl

abbrev without_ads : World
without_ads = (Entitlements.revoke_product "t1" Product.ai_ads (pos 2) with_ads).1

authorize-revoked_example :
    authorize without_ads.db.tenants
      (snapshot_of without_ads.db.entitlements)
      "t1"
      Product.ai_ads
      "large"
    ≡ err (authorization_denied Code.product_not_entitled)
unfolding get Entitlements.revoke_product uwo_shared_platform.ControlPlane.Action.◌>>=◌
    uwo_shared_platform.ControlPlane.Repositories.Items.revoked
    uwo_shared_platform.ControlPlane.World.Product-discrete snapshot_of
    uwo_shared_platform.Prelude.Dict.set uwo_shared_platform.Prelude.Sorting.sorted_by
    uwo_shared_platform.Prelude.Int.◌+ℤ◌ uwo_shared_platform.Prelude.Dict.delete
authorize-revoked_example =
    authorize-revoked "t1" Product.ai_ads "large" (pos 2) with_ads {x = tenant}
      {d = (Product.ai_ads, ads) ∷ []}
      {s = record { tenant_id = "t1"; products = []; models = []; version = pos 3 }}
      {w' = without_ads} refl refl refl (Arises.grants Arises.empty ads) refl
