-- ===== src/ControlPlane/Service/Entitlements.antt =====
-- `PlatformControlPlane`: entitlements.
use Prim.Native.String.{◌++◌}
use uwo_shared_platform.Prelude.{
  String, Bool, true, false, not, Option, none, some, List, [], ◌∷◌, if◌then◌else◌,
}
use uwo_shared_platform.Prelude.Int.{ℤ, pos}
use uwo_shared_platform.Env.{Env, Json}
use uwo_shared_platform.Contracts.Domain.{Product, product_value, VerifiedSubjectIdentity}
use uwo_shared_platform.ControlPlane.{Directory}
use uwo_shared_platform.ControlPlane.Authorization.{Permission}
use uwo_shared_platform.ControlPlane.Entitlements.{
  EntitlementSnapshot, ModelEntitlement, ProductEntitlement,
}
use uwo_shared_platform.ControlPlane.Checks.{
  idempotency_valid, model_entitlement_valid, product_entitlement_valid,
}
use uwo_shared_platform.ControlPlane.World.{
  EntitlementMutationResult, IdempotencyRecord, IdempotencyResult, IdempotencyScope,
}
use uwo_shared_platform.ControlPlane.Repositories.Entitlements
use uwo_shared_platform.ControlPlane.Repositories.Idempotency
use uwo_shared_platform.ControlPlane.Service.Common.{
  require, require_idempotency_key, scope_of, fingerprint, as_model, as_product, replay, record_of,
  succeeded,
}
use uwo_shared_platform.ControlPlane.Action.{
  Act, return, construct, contract, read_clock, emit, commit, transaction, ◌>>=◌, ◌>>◌,
}

abbrev pub mutated : {A : Type 0} → A → Bool → EntitlementMutationResult A
mutated a created = record { entitlement = a; created = created }

-- The class of the entitlement is given by its tests and by its place in the union of results.
module _ {A : Type 0} (valid : A → Bool) (stored_as : A → IdempotencyResult)
    (as_class : IdempotencyResult → Option A) where
  abbrev pub grant_new :
      IdempotencyScope
      → String
      → String
      → Act A
      → Option IdempotencyRecord
      → Act (EntitlementMutationResult A)
  grant_new scope key request_fingerprint mutation (some existing) = do
    replayed ← replay existing request_fingerprint as_class
    commit
    return (mutated replayed false)
  grant_new scope key request_fingerprint mutation none = do
    stored ← mutation
    replaced ← construct (valid stored) stored
    let r = record_of scope key request_fingerprint (stored_as replaced)
    r' ← construct (idempotency_valid r) r
    _ ← Idempotency.put r'
    commit
    return (mutated stored true)

  -- `_grant`
  unfoldable pub grant :
      IdempotencyScope → String → String → Act A → Act (EntitlementMutationResult A)
  grant scope key request_fingerprint mutation = transaction (do
    existing ← Idempotency.get scope key
    grant_new scope key request_fingerprint mutation existing)

abbrev pub grant_fields : String → String → String → ℤ → List (String × Json)
grant_fields tenant_id name value expected_version =
    ("tenant_id", Json.text tenant_id)
    ∷ (name, Json.text value)
    ∷ ("expected_version", Json.number expected_version)
    ∷ []

abbrev pub new_product : String → Product → String → VerifiedSubjectIdentity → ProductEntitlement
new_product tenant_id product timestamp identity = record {
  entitlement_id = "product:" ++ tenant_id ++ ":" ++ product_value product;
  tenant_id = tenant_id;
  product = product;
  granted_at = timestamp;
  granted_by = identity.subject;
  version = pos 1;
}

abbrev pub new_model : String → String → String → VerifiedSubjectIdentity → ModelEntitlement
new_model tenant_id model timestamp identity = record {
  entitlement_id = "model:" ++ tenant_id ++ ":" ++ model;
  tenant_id = tenant_id;
  model = model;
  granted_at = timestamp;
  granted_by = identity.subject;
  version = pos 1;
}

module _ ⦃env : Env⦄ where
  -- `if result.created: emit`
  abbrev pub emit_created :
      {A : Type 0}
      → String
      → String
      → VerifiedSubjectIdentity
      → String
      → String
      → EntitlementMutationResult A
      → Act (EntitlementMutationResult A)
  emit_created event_type request_id identity tenant_id resource_id result =
      if not result.created then return result else do
        emit (succeeded event_type request_id identity tenant_id none (some resource_id))
        return result

  module _ (fixed : Directory) where
    unfoldable pub grant_product :
        VerifiedSubjectIdentity
        → String
        → Product
        → ℤ
        → String
        → String
        → Act (EntitlementMutationResult ProductEntitlement)
    grant_product identity tenant_id product expected_version idempotency_key request_id = do
      require fixed identity tenant_id Permission.entitlement_manage false
      require_idempotency_key idempotency_key
      timestamp ← read_clock
      let e = new_product tenant_id product timestamp identity
      item ← contract (product_entitlement_valid e) e
      scope ← scope_of "entitlement.product.grant" tenant_id identity
      result ←
          grant product_entitlement_valid IdempotencyResult.product_result as_product scope
            idempotency_key
            (fingerprint
              (grant_fields tenant_id "product" (product_value product) expected_version))
            (Entitlements.grant_product item expected_version)
      emit_created "entitlement.product_granted" request_id identity tenant_id
          (product_value product) result

    unfoldable pub revoke_product :
        VerifiedSubjectIdentity → String → Product → ℤ → String → Act EntitlementSnapshot
    revoke_product identity tenant_id product expected_version request_id = do
      require fixed identity tenant_id Permission.entitlement_manage false
      result ← Entitlements.revoke_product tenant_id product expected_version
      emit (
          succeeded "entitlement.product_revoked" request_id identity tenant_id none
            (some (product_value product)))
      return result

    unfoldable pub grant_model :
        VerifiedSubjectIdentity
        → String
        → String
        → ℤ
        → String
        → String
        → Act (EntitlementMutationResult ModelEntitlement)
    grant_model identity tenant_id model expected_version idempotency_key request_id = do
      require fixed identity tenant_id Permission.entitlement_manage false
      require_idempotency_key idempotency_key
      timestamp ← read_clock
      let e = new_model tenant_id model timestamp identity
      item ← contract (model_entitlement_valid e) e
      scope ← scope_of "entitlement.model.grant" tenant_id identity
      result ←
          grant model_entitlement_valid IdempotencyResult.model_result as_model scope
            idempotency_key (fingerprint (grant_fields tenant_id "model" model expected_version))
            (Entitlements.grant_model item expected_version)
      emit_created "entitlement.model_granted" request_id identity tenant_id model result

    unfoldable pub revoke_model :
        VerifiedSubjectIdentity → String → String → ℤ → String → Act EntitlementSnapshot
    revoke_model identity tenant_id model expected_version request_id = do
      require fixed identity tenant_id Permission.entitlement_manage false
      result ← Entitlements.revoke_model tenant_id model expected_version
      emit (succeeded "entitlement.model_revoked" request_id identity tenant_id none (some model))
      return result

    unfoldable pub effective_entitlements :
        VerifiedSubjectIdentity → String → Act EntitlementSnapshot
    effective_entitlements identity tenant_id = do
      require fixed identity tenant_id Permission.entitlement_read false
      Entitlements.snapshot tenant_id
