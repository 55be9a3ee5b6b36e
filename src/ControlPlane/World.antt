-- ===== src/ControlPlane/World.antt =====
-- The state of the control plane: what the in-memory repositories hold
-- (services/platform_control_plane/in_memory.py, repositories.py), and what surrounds them.
use uwo_shared_platform.Prelude.{ℕ, String, Bool, Option, List}
use uwo_shared_platform.Prelude.Int.{ℤ}
use uwo_shared_platform.Prelude.Keys.{Eq, derived_eq}
use uwo_shared_platform.Prelude.Dict.{Dict}
use uwo_shared_platform.Env.{Json}
use uwo_shared_platform.Contracts.Domain.{Product, Tenant, TenantMembership}
use uwo_shared_platform.ControlPlane.Entitlements.{ProductEntitlement, ModelEntitlement}
use uwo_shared_platform.DataServices.Outbox.{OutboxRecord}
use uwo_shared_platform.DataServices.Events.{PlatformEvent}

-- A policy is an object of objects of scalars, as `create_tenant` makes it.
pub record PolicyDocument : Type 0 where
  pub tenant_id : String
  pub policy_version : ℤ
  pub policy : List (String × List (String × Json))
  pub created_at : String
  pub created_by : String

pub record Page : Type 0 where
  pub items : List Tenant
  pub next_cursor : Option String

pub record CreateResult : Type 0 where
  pub tenant : Tenant
  pub created : Bool

-- `ProductEntitlement | ModelEntitlement`
pub record EntitlementMutationResult (A : Type 0) : Type 0 where
  pub entitlement : A
  pub created : Bool

pub record MembershipMutationResult : Type 0 where
  pub membership : TenantMembership
  pub created : Bool

-- the union `IdempotencyResult`
pub data IdempotencyResult : Type 0 where
  tenant_result : Tenant → IdempotencyResult
  product_result : ProductEntitlement → IdempotencyResult
  model_result : ModelEntitlement → IdempotencyResult

pub record IdempotencyScope : Type 0 where
  pub operation : String
  pub tenant_id : String
  pub actor_subject : String

pub record IdempotencyRecord : Type 0 where
  pub scope : IdempotencyScope
  pub key : String
  pub request_fingerprint : String
  pub original_result : IdempotencyResult

abbrev pub IdempotencyKey : Type 0
IdempotencyKey = String × (String × (String × String))

-- `_record_key`
abbrev pub record_key : IdempotencyScope → String → IdempotencyKey
record_key scope key = (scope.operation, (scope.tenant_id, (scope.actor_subject, key)))

-- `InMemoryEntitlementRepository`
pub record EntitlementStore : Type 0 where
  pub products : Dict String (Dict Product ProductEntitlement)
  pub models : Dict String (Dict String ModelEntitlement)
  pub versions : Dict String ℤ

-- The repositories of a unit of work: what `__enter__` copies and `rollback` puts back.
pub record Db : Type 0 where
  pub tenants : Dict String Tenant
  pub memberships : Dict (String × String) TenantMembership
  pub entitlements : EntitlementStore
  pub policies : Dict String PolicyDocument
  pub idempotency : Dict IdempotencyKey IdempotencyRecord
  pub outbox : Dict String (OutboxRecord PlatformEvent)

-- the points at which `FailureInjector` can fail
pub data FailurePoint : Type 0 where
  tenant_write entitlement_initialization policy_initialization : FailurePoint
  idempotency_persistence : FailurePoint

pub data Outcome : Type 0 where
  succeeded failed : Outcome

pub record ControlPlaneAuditEvent : Type 0 where
  pub timestamp : String
  pub event_type : String
  pub request_id : String
  pub outcome : Outcome
  pub actor_subject : Option String
  pub tenant_id : Option String
  pub target_subject : Option String
  pub resource_id : Option String
  pub reason_code : Option String

pub record World : Type 0 where
  pub db : Db
  -- the armed point of the failure injector that the repositories share
  pub failing : Option FailurePoint
  -- `_committed` of the unit of work that is open
  pub committed : Bool
  -- how many times a clock was read
  pub ticks : ℕ
  -- what the audit sink was given, the latest first
  pub audit : List ControlPlaneAuditEvent

-- the members of an Enum are compared by identity
unfoldable pub Product-discrete : Discrete Product
Product-discrete = hlevel

instance abbrev pub product_eq : Eq Product
product_eq = derived_eq Product-discrete
