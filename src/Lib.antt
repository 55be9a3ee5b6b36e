-- ===== src/Lib.antt =====
-- A model of the UWO shared platform: its billing service, its control plane,
-- and the routing, resilience and execution of its AI gateway.
--
-- The platform is a set of Python services around shared contracts. The control plane keeps tenants,
-- memberships, entitlements and policies under optimistic versions, and authorizes subjects by them.
-- The billing service keeps accounts, an append-only ledger of credit movements, reservations of
-- credit, usage events, rate cards and idempotency records; its operations
-- authorize the caller by the control plane's directory, run under a unit of work, and write audit
-- events. The AI gateway picks providers for a request,
-- calls them under a circuit breaker, and charges what was used through the billing service: its
-- execution service reserves, executes, and captures or releases, and keeps the outcome of each
-- request with its events in an outbox, so that a repeated request resumes where the last one stopped.
--
-- Files, by the code they model:
--   Contracts, Contracts.*       packages/contracts/{catalog,domain,billing}.py: the dataclasses as
--                                records, their `__post_init__` as Booleans (`entry_valid`, ...)
--   Errors                       services/platform_billing/errors.py and
--                                services/platform_control_plane/errors.py: exceptions as values
--   Env                          clocks, `datetime`, `hashlib` and `json`, as parameters
--   ControlPlane.Authorization   services/platform_control_plane/authorization.py
--   ControlPlane.Entitlements    services/platform_control_plane/entitlements.py
--   ControlPlane.World           the state: services/platform_control_plane/{in_memory,repositories,audit}.py
--   ControlPlane.Action          a call of the control plane, the failure injector and the unit of work
--   ControlPlane.Checks          the tests of packages/contracts/domain.py
--   ControlPlane.Repositories.*  the in-memory repositories; Items and Pages are their pure parts
--   ControlPlane.Service.*       services/platform_control_plane/service.py, `PlatformControlPlane`
--   Billing.World                the state: services/platform_billing/in_memory.py, repositories.py,
--                                audit.py
--   Billing.Action               a call: it changes the world and returns or raises
--   Billing.{Accounts,Ledger,Reservations,Usage,RateCards,Idempotency}
--                                the in-memory repositories, an operation to a function
--   Billing.UnitOfWork           `InMemoryBillingUnitOfWork`: snapshot, commit, restore
--   Billing.Pricing              services/platform_billing/pricing.py
--   Billing.Authorizer           services/platform_billing/authorization.py
--   Billing.Service.*            services/platform_billing/service.py, `PlatformBillingService`: Common
--                                has what the operations share, and each operation has its module
--   Billing.Gateway              services/platform_billing/gateway.py
--   Gateway.Router               services/ai_gateway/router.py with the records of config.py
--   Gateway.Access               services/ai_gateway/authorization.py, and the authorizer of billing.py
--   Gateway.Resilience           services/ai_gateway/resilience.py
--   Gateway.ContentSafety        services/ai_gateway/content_safety.py
--   Gateway.Execution.*          services/ai_gateway/execution.py, `SecureExecutionService` and its outcome
--                                store: Data, Action, Store, Outcomes (the transactions) and Service, over
--                                collaborators that are a record of calls; Configured is the one that
--                                `build_dependencies` of app.py makes
--   DataServices.Events          services/data_service_common.py, `PlatformEvent` and its identifier
--   DataServices.Authorizer      services/data_service_common.py, `DataServiceAuthorizer`
--   DataServices.Outbox          the same file, `OutboxRecord` and `InMemoryOutbox`; Dispatch has its
--                                reads, `transition` and `OutboxDispatcher`
--   DataServices.Recorder        the same file, `OutboxEventRecorder`, `record_event_safely`
--   Billing.Ledger.*, Billing.Invariant.*, Billing.Service.{Atomic,Rollback,Repeats,Preserves,Status},
--   ControlPlane.{Ends,Invariant.*,Replay,RoundTrip,StatusChange,Entitled.*},
--   DataServices.Outbox.{Lease,Delivery} and the modules below a component that are named for a property have the proofs; Tests has a
--   small world, runs in it and the theorems at its inputs.
--
-- Python's integers are an unbounded ℤ over the native numbers. A call under a unit of work is one
-- step, since the code holds every lock for the whole body; the failure injector of the repositories
-- is part of the state. Types are static here, so the `isinstance` tests of arguments are left out, and
-- so are the messages of exceptions. `str` of a natural number n has n + 1 units of fuel, which is
-- enough as it takes one for each digit; every other loop is structural.
--
-- Audit sinks keep the list of their events and never raise; timestamps of audit events of the gateway
-- are left out. `==` of a dataclass is derived from that of its fields.
--
-- Not modelled: the HTTP applications, token verification, secrets and the providers' transports, and
-- the data services (audit, notifications, storage, analytics) beyond what they share.
pub mod Prelude
pub mod Errors
pub mod Env
pub mod Contracts
pub mod ControlPlane
pub mod Billing
pub mod Gateway
pub mod DataServices
mod Tests
