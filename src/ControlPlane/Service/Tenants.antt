-- ===== src/ControlPlane/Service/Tenants.antt =====
-- `PlatformControlPlane`: tenants and their policies.
use uwo_shared_platform.Prelude.{
  String, Bool, true, false, not, ◌||◌, Option, none, some, List, [], ◌∷◌, if◌then◌else◌,
}
use uwo_shared_platform.Prelude.Int.{ℤ, pos, pos_part, ◌+ℤ◌, ltb_ℤ}
use uwo_shared_platform.Errors.{
  Code, Result, ok, err, conflict, invalid_request, resource_not_found,
}
use uwo_shared_platform.Env.{Env, Json}
use uwo_shared_platform.Contracts.Domain.{
  Tenant, TenantStatus, VerifiedSubjectIdentity, is_suspended,
}
use uwo_shared_platform.DataServices.Outbox
use uwo_shared_platform.DataServices.Outbox.{record_valid}
use uwo_shared_platform.DataServices.Events.{
  PlatformEvent, event_eq, event_valid, pending_record, platform_event,
}
use uwo_shared_platform.ControlPlane.{Directory}
use uwo_shared_platform.ControlPlane.Authorization.{Permission}
use uwo_shared_platform.ControlPlane.Checks.{idempotency_valid, policy_valid, tenant_valid}
use uwo_shared_platform.ControlPlane.World.{
  ControlPlaneAuditEvent, CreateResult, IdempotencyRecord, IdempotencyResult, Outcome, Page,
  PolicyDocument,
}
use uwo_shared_platform.ControlPlane.Repositories.Tenants
use uwo_shared_platform.ControlPlane.Repositories.Policies
use uwo_shared_platform.ControlPlane.Repositories.Idempotency
use uwo_shared_platform.ControlPlane.Repositories.Entitlements
use uwo_shared_platform.ControlPlane.Service.Common.{
  require, platform_only, require_idempotency_key, scope_of, fingerprint, as_tenant, replay,
  record_of, succeeded,
}
use uwo_shared_platform.ControlPlane.Action.{
  Act, return, lift, gets, or_raise, construct, contract, raise_when, write_db, read_clock, emit,
  commit, transaction, ◌>>=◌, ◌>>◌,
}

-- `status.value`
abbrev pub status_value : TenantStatus → String
status_value TenantStatus.active = "active"
status_value TenantStatus.suspended = "suspended"

abbrev pub same_status : TenantStatus → TenantStatus → Bool
same_status TenantStatus.active TenantStatus.active = true
same_status TenantStatus.suspended TenantStatus.suspended = true
same_status _ _ = false

abbrev pub new_tenant : String → String → String → String → Tenant
new_tenant tenant_id name region timestamp = record {
  tenant_id = tenant_id;
  name = name;
  status = TenantStatus.active;
  region = region;
  created_at = timestamp;
  updated_at = timestamp;
  version = pos 1;
}

abbrev pub new_policy : String → String → String → PolicyDocument
new_policy tenant_id subject timestamp = record {
  tenant_id = tenant_id;
  policy_version = pos 1;
  policy =
      (
        "metadata",
        ("document_type", Json.text "tenant-policy") ∷ ("schema_version", Json.text "1") ∷ [],
      )
      ∷ [];
  created_at = timestamp;
  created_by = subject;
}

abbrev pub provisioning_fields : String → String → String → List (String × Json)
provisioning_fields tenant_id name region =
    ("tenant_id", Json.text tenant_id)
    ∷ ("name", Json.text name)
    ∷ ("region", Json.text region)
    ∷ []

abbrev pub unprovisioned : String → VerifiedSubjectIdentity → String → ControlPlaneAuditEvent
unprovisioned request_id identity tenant_id = record {
  timestamp = "";
  event_type = "tenant.provisioning_rolled_back";
  request_id = request_id;
  outcome = Outcome.failed;
  actor_subject = some identity.subject;
  tenant_id = some tenant_id;
  target_subject = none;
  resource_id = none;
  reason_code = some "transaction_rolled_back";
}

abbrev pub result_of : Tenant → Bool → CreateResult
result_of tenant created = record { tenant = tenant; created = created }

module _ ⦃env : Env⦄ where
  abbrev pub report : {A : Type 0} → ControlPlaneAuditEvent → Result A → Act A
  report event (ok a) w = (ok a, w)
  report event (err e) w = (err e, (emit event w).1)

  -- `except Exception: emit; raise`
  unfoldable pub on_failure : {A : Type 0} → ControlPlaneAuditEvent → Act A → Act A
  on_failure event m w = let (r, w') = m w in report event r w'

  -- the body of the unit of work of `create_tenant`
  abbrev pub provision_new : Tenant → PolicyDocument → IdempotencyRecord → Act CreateResult
  provision_new tenant policy r = do
    _ ← Tenants.create tenant
    Entitlements.initialize tenant.tenant_id
    _ ← Policies.create_initial policy
    -- `replace(tenant)`, the tenant of the record
    _ ← construct (tenant_valid tenant) tenant
    r' ← construct (idempotency_valid r) r
    _ ← Idempotency.put r'
    commit
    return (result_of tenant true)

  unfoldable pub provision :
      Tenant → PolicyDocument → IdempotencyRecord → Option IdempotencyRecord → Act CreateResult
  provision tenant policy r none = provision_new tenant policy r
  provision tenant policy r (some existing) = do
    replayed ← replay existing r.request_fingerprint as_tenant
    commit
    return (result_of replayed false)

  module _ (fixed : Directory) where
    unfoldable pub create_tenant :
        VerifiedSubjectIdentity → String → String → String → String → String → Act CreateResult
    create_tenant identity tenant_id name region idempotency_key request_id = do
      platform_only fixed identity
      require_idempotency_key idempotency_key
      timestamp ← read_clock
      let t = new_tenant tenant_id name region timestamp
      tenant ← contract (tenant_valid t) t
      let p = new_policy tenant_id identity.subject timestamp
      policy ← contract (policy_valid p) p
      scope ← scope_of "tenant.create" tenant_id identity
      let r =
          record_of scope idempotency_key (fingerprint (provisioning_fields tenant_id name region))
            (IdempotencyResult.tenant_result tenant)
      result ← on_failure (unprovisioned request_id identity tenant_id) (
          transaction (do
            existing ← Idempotency.get scope idempotency_key
            provision tenant policy r existing))
      if not result.created then return result else do
        emit (succeeded "tenant.created" request_id identity tenant_id none none)
        return result

    unfoldable pub get_tenant : VerifiedSubjectIdentity → String → Act Tenant
    get_tenant identity tenant_id = do
      require fixed identity tenant_id Permission.tenant_read true
      found ← Tenants.get tenant_id
      or_raise found (resource_not_found Code.unknown_tenant)

    unfoldable pub list_tenants : VerifiedSubjectIdentity → ℤ → Option String → Act Page
    list_tenants identity limit cursor = do
      platform_only fixed identity
      raise_when (ltb_ℤ limit (pos 1) || ltb_ℤ (pos 100) limit)
          (invalid_request Code.invalid_pagination)
      Tenants.list (pos_part limit) cursor

    abbrev pub require_status : VerifiedSubjectIdentity → String → TenantStatus → Act (Unit {0})
    require_status identity tenant_id status =
        if is_suspended status
        then platform_only fixed identity
        else require fixed identity tenant_id Permission.tenant_manage false

  -- `transaction.outbox.enqueue(OutboxRecord(…))`
  unfoldable pub enqueue : PlatformEvent → Act (Unit {0})
  enqueue event = do
    r ← construct (record_valid env.is_alnum (pending_record event)) (pending_record event)
    outbox ← gets (λ w. w.db.outbox)
    (_, outbox') ← lift (Outbox.enqueue env.is_alnum r outbox)
    write_db (λ db. record db { outbox = outbox' })

  abbrev pub with_status : Tenant → TenantStatus → String → Tenant
  with_status t status timestamp = record t {
    status = status;
    updated_at = timestamp;
    version = t.version +ℤ pos 1;
  }

  abbrev pub status_event : Tenant → TenantStatus → String → String → String → PlatformEvent
  status_event current status tenant_id request_id timestamp =
      platform_event "tenant.status-changed" tenant_id request_id
        (("status", Json.text (status_value status)) ∷ ("region", Json.text current.region) ∷ [])
        timestamp

  -- the body of the unit of work of `set_tenant_status`
  unfoldable pub write_status : String → TenantStatus → ℤ → String → PlatformEvent → Act Tenant
  write_status tenant_id status expected_version timestamp event = do
    found ← Tenants.get tenant_id
    current ← or_raise found (resource_not_found Code.unknown_tenant)
    let t = with_status current status timestamp
    updated ← construct (tenant_valid t) t
    result ← Tenants.update updated expected_version
    enqueue event
    commit
    return result

  module _ (fixed : Directory) where
    unfoldable pub set_tenant_status :
        VerifiedSubjectIdentity → String → TenantStatus → ℤ → String → Act Tenant
    set_tenant_status identity tenant_id status expected_version request_id = do
      found ← Tenants.get tenant_id
      current ← or_raise found (resource_not_found Code.unknown_tenant)
      require_status fixed identity tenant_id current.status
      raise_when (same_status current.status status) (conflict Code.status_unchanged)
      timestamp ← read_clock
      let e = status_event current status tenant_id request_id timestamp
      event ← construct (event_valid e) e
      result ← transaction (write_status tenant_id status expected_version timestamp event)
      emit (
          succeeded "tenant.status_changed" request_id identity tenant_id none
            (some (status_value status)))
      return result

    unfoldable pub policy_version : VerifiedSubjectIdentity → String → Act PolicyDocument
    policy_version identity tenant_id = do
      require fixed identity tenant_id Permission.policy_read true
      found ← Policies.current tenant_id
      or_raise found (resource_not_found Code.unknown_policy)
