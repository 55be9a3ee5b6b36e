-- ===== src/Billing/World.antt =====
-- The state of the billing service: what the in-memory repositories hold
-- (services/platform_billing/in_memory.py, repositories.py), and what surrounds them.
use uwo_shared_platform.Prelude.{ℕ, String, Bool, Option, List}
use uwo_shared_platform.Prelude.Int.{ℤ}
use uwo_shared_platform.Prelude.Dict.{Dict}
use uwo_shared_platform.Contracts.Billing.{
  BillingAccount, CreditBalance, CreditReservation, UsageEvent, LedgerEntry, RateCard,
  ChargeCalculation,
}
use uwo_shared_platform.ControlPlane.{Directory}

pub record LedgerPage : Type 0 where
  pub items : List LedgerEntry
  pub next_cursor : Option String

pub record AccountMutationResult : Type 0 where
  pub account : BillingAccount
  pub created : Bool

pub record CreditMutationResult : Type 0 where
  pub balance : CreditBalance
  pub ledger_entry : LedgerEntry
  pub created : Bool

pub record ReservationMutationResult : Type 0 where
  pub reservation : CreditReservation
  pub balance : CreditBalance
  pub ledger_entry : LedgerEntry
  pub created : Bool

pub record CaptureMutationResult : Type 0 where
  pub reservation : CreditReservation
  pub balance : CreditBalance
  pub usage_event : UsageEvent
  pub charge : ChargeCalculation
  pub ledger_entry : LedgerEntry
  pub created : Bool

pub record ReleaseMutationResult : Type 0 where
  pub reservation : CreditReservation
  pub balance : CreditBalance
  pub ledger_entry : LedgerEntry
  pub created : Bool

-- the union `IdempotencyResult`
pub data IdempotencyResult : Type 0 where
  account_result : BillingAccount → IdempotencyResult
  credit_result : CreditMutationResult → IdempotencyResult
  reservation_result : ReservationMutationResult → IdempotencyResult
  capture_result : CaptureMutationResult → IdempotencyResult
  release_result : ReleaseMutationResult → IdempotencyResult

pub record IdempotencyScope : Type 0 where
  pub operation : String
  pub tenant_id : String
  pub actor_subject : String

pub record IdempotencyRecord : Type 0 where
  pub scope : IdempotencyScope
  pub key : String
  pub request_fingerprint : String
  pub original_result : IdempotencyResult

-- the key tuple of `InMemoryIdempotencyRepository`
abbrev pub IdempotencyKey : Type 0
IdempotencyKey = String × (String × (String × String))

abbrev pub record_key : IdempotencyScope → String → IdempotencyKey
record_key scope key = (scope.operation, (scope.tenant_id, (scope.actor_subject, key)))

-- `InMemoryBillingAccountRepository`
pub record Accounts : Type 0 where
  pub items : Dict String BillingAccount
  pub tenant_index : Dict String String

-- `InMemoryLedgerRepository`
pub record Ledger : Type 0 where
  pub items : Dict String LedgerEntry
  pub account_entries : Dict String (List String)

-- The six repositories of a unit of work: what `_snapshot` copies and `_restore` puts back.
pub record Db : Type 0 where
  pub accounts : Accounts
  pub ledger : Ledger
  pub reservations : Dict String CreditReservation
  pub usage : Dict String UsageEvent
  pub rate_cards : Dict (String × ℤ) RateCard
  pub idempotency : Dict IdempotencyKey IdempotencyRecord

-- the points at which `FailureInjector` can fail
pub data FailurePoint : Type 0 where
  account_write ledger_write reservation_write usage_write idempotency_write : FailurePoint

-- the events of audit.py, by `event_type`
pub data AuditEventType : Type 0 where
  transaction_rolled_back account_created account_status_changed : AuditEventType
  credit_grant credit_adjustment refund insufficient_balance : AuditEventType
  usage_reservation usage_capture reservation_release : AuditEventType
  reservation_created reservation_captured reservation_captured_override : AuditEventType
  reservation_released : AuditEventType

pub data Outcome : Type 0 where
  succeeded failed denied : Outcome

pub record BillingAuditEvent : Type 0 where
  pub timestamp : String
  pub event_type : AuditEventType
  pub request_id : String
  pub outcome : Outcome
  pub actor_subject : Option String
  pub tenant_id : Option String
  pub account_id : Option String
  pub reservation_id : Option String
  pub usage_event_id : Option String
  pub ledger_entry_id : Option String
  pub reason_code : Option String

pub record World : Type 0 where
  pub db : Db
  -- the armed point of the failure injector that the repositories share
  pub failing : Option FailurePoint
  -- `_committed` of the unit of work that is open
  pub committed : Bool
  -- the local variable `mutation_started` of the call that is running
  pub mutation_started : Bool
  -- how many times a clock was read
  pub ticks : ℕ
  -- what the audit sink was given, the latest first
  pub audit : List BillingAuditEvent
  -- the tenants for which `billing.balance-low` was recorded, with the request, the latest first
  pub balance_low_events : List (String × String)
  pub directory : Directory
