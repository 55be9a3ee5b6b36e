-- ===== src/ControlPlane/Service/Common.antt =====
-- What the operations of `PlatformControlPlane` share.
use uwo_shared_platform.Prelude.{String, Bool, not, Option, none, some, List}
use uwo_shared_platform.Prelude.Keys.{string_eq, ◌==◌}
use uwo_shared_platform.Errors.{Code, repository_integrity, conflict, invalid_request}
use uwo_shared_platform.Env.{Env, Json}
use uwo_shared_platform.Contracts.Text.{is_key}
use uwo_shared_platform.Contracts.Domain.{Tenant, VerifiedSubjectIdentity}
use uwo_shared_platform.ControlPlane.{Directory}
use uwo_shared_platform.ControlPlane.Authorization
use uwo_shared_platform.ControlPlane.Authorization.{Permission}
use uwo_shared_platform.ControlPlane.Entitlements.{ModelEntitlement, ProductEntitlement}
use uwo_shared_platform.ControlPlane.Checks.{scope_valid}
use uwo_shared_platform.ControlPlane.World.{
  ControlPlaneAuditEvent, Db, IdempotencyRecord, IdempotencyResult, IdempotencyScope, Outcome,
}
use uwo_shared_platform.ControlPlane.Action.{Act, return, raise, reads, construct, raise_when, ◌>>◌}

-- what the authorizer reads
abbrev pub directory_of : Directory → Db → Directory
directory_of fixed db = record fixed { tenants = db.tenants; memberships = db.memberships }

module _ (fixed : Directory) where
  -- `_require`
  unfoldable pub require : VerifiedSubjectIdentity → String → Permission → Bool → Act (Unit {0})
  require identity tenant_id permission allow_suspended = reads (λ w.
      Authorization.require (directory_of fixed w.db) identity tenant_id permission allow_suspended)

  -- `_platform_only`
  unfoldable pub platform_only : VerifiedSubjectIdentity → Act (Unit {0})
  platform_only identity =
      reads (λ w. Authorization.require_platform_admin (directory_of fixed w.db) identity)

-- `_require_idempotency_key`
abbrev pub require_idempotency_key : String → Act (Unit {0})
require_idempotency_key key =
    raise_when (not (is_key key)) (invalid_request Code.invalid_idempotency_key)

abbrev pub scope_fields : String → String → VerifiedSubjectIdentity → IdempotencyScope
scope_fields operation tenant_id identity = record {
  operation = operation;
  tenant_id = tenant_id;
  actor_subject = identity.subject;
}

-- `_scope`
unfoldable pub scope_of : String → String → VerifiedSubjectIdentity → Act IdempotencyScope
scope_of operation tenant_id identity =
    construct (scope_valid (scope_fields operation tenant_id identity))
      (scope_fields operation tenant_id identity)

-- `_fingerprint`
abbrev pub fingerprint : ⦃env : Env⦄ → List (String × Json) → String
fingerprint ⦃env⦄ value = env.sha256_hex (env.json_dumps value)

-- the class of the result that a record must hold
abbrev pub as_tenant : IdempotencyResult → Option Tenant
as_tenant (IdempotencyResult.tenant_result t) = some t
as_tenant _ = none

abbrev pub as_product : IdempotencyResult → Option ProductEntitlement
as_product (IdempotencyResult.product_result e) = some e
as_product _ = none

abbrev pub as_model : IdempotencyResult → Option ModelEntitlement
as_model (IdempotencyResult.model_result e) = some e
as_model _ = none

module _ {A : Type 0} where
  abbrev pub of_class : Option A → Act A
  of_class none = raise repository_integrity
  of_class (some a) = return a

  -- `_replay`
  unfoldable pub replay : IdempotencyRecord → String → (IdempotencyResult → Option A) → Act A
  replay r request_fingerprint as_class = do
    raise_when (not (r.request_fingerprint == request_fingerprint))
        (conflict Code.idempotency_conflict)
    of_class (as_class r.original_result)

-- An audit event of a call that succeeded; the sink writes the time.
abbrev pub succeeded :
    String
    → String
    → VerifiedSubjectIdentity
    → String
    → Option String
    → Option String
    → ControlPlaneAuditEvent
succeeded event_type request_id identity tenant_id target_subject resource_id = record {
  timestamp = "";
  event_type = event_type;
  request_id = request_id;
  outcome = Outcome.succeeded;
  actor_subject = some identity.subject;
  tenant_id = some tenant_id;
  target_subject = target_subject;
  resource_id = resource_id;
  reason_code = none;
}

abbrev pub record_of : IdempotencyScope → String → String → IdempotencyResult → IdempotencyRecord
record_of scope key request_fingerprint result = record {
  scope = scope;
  key = key;
  request_fingerprint = request_fingerprint;
  original_result = result;
}
