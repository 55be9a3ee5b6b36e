-- ===== src/Gateway/Execution/Data.antt =====
-- The data of services/ai_gateway/execution.py and of providers/base.py, the exceptions, and the
-- collaborators that `SecureExecutionService` is built from.
use uwo_shared_platform.Prelude.{
  String, Bool, not, ◌&&◌, ◌||◌, Option, none, some, List, is_none, is_some,
}
use uwo_shared_platform.Prelude.Int.{ℤ}
use uwo_shared_platform.Prelude.Keys.{Eq, Eq-discrete, derived_eq, string_eq, int_eq}
use uwo_shared_platform.Contracts.Domain.{Product}
use uwo_shared_platform.Gateway.Router.{RouteRequest, RouteResult}

-- `VerifiedIdentity` of auth.py, as far as the service reads it
pub record VerifiedIdentity : Type 0 where
  pub subject : String
  pub tenant_id : String

pub record ProviderRequest : Type 0 where
  pub request_id : String
  pub tenant_id : String
  pub model : String
  pub prompt : String

pub record ProviderUsage : Type 0 where
  pub input_tokens : ℤ
  pub output_tokens : ℤ
  pub total_tokens : ℤ

pub record ProviderResponse : Type 0 where
  pub provider_request_id : Option String
  pub output_text : String
  pub provider_model_id : Option String
  pub usage : Option ProviderUsage

-- `ExecutionResult` of resilience.py
pub record ExecutionResult : Type 0 where
  pub provider_id : String
  pub response : ProviderResponse

unfoldable pub ExecutionResult-discrete : Discrete ExecutionResult
ExecutionResult-discrete = hlevel (Eq-discrete string_eq, Eq-discrete int_eq)

instance abbrev pub result_eq : Eq (Option ExecutionResult)
result_eq = derived_eq (hlevel ExecutionResult-discrete)

pub record SecureExecutionRequest : Type 0 where
  pub request_id : String
  pub tenant_id : String
  pub product : Product
  pub model : String
  pub region : String
  pub prompt : String

pub record SecureExecutionResult : Type 0 where
  pub request_id : String
  pub provider : String
  pub model : String
  pub region : String
  pub output_text : String
  pub provider_request_id : Option String

pub record ExecutionOutcome : Type 0 where
  pub fingerprint : String
  pub result : Option ExecutionResult
  pub captured : Bool
  pub success_event_enqueued : Bool
  pub failure_code : Option String
  pub failure_kind : Option String
  pub provider_id : Option String
  pub failure_event_enqueued : Bool
  pub compensation_failed : Bool
  pub compensation_failure_event_enqueued : Bool

-- `ExecutionOutcome.__post_init__`
unfoldable pub outcome_valid : ExecutionOutcome → Bool
outcome_valid o =
    not (is_none o.result && is_none o.failure_code || is_some o.result && is_some o.failure_code)
    && not (is_none o.result && (o.captured || o.success_event_enqueued))
    && not (is_some o.result && (is_some o.failure_kind || o.failure_event_enqueued))
    && not (o.captured && not o.success_event_enqueued)
    && not (o.compensation_failure_event_enqueued && not o.compensation_failed)

unfoldable pub ExecutionOutcome-discrete : Discrete ExecutionOutcome
ExecutionOutcome-discrete = hlevel (Eq-discrete string_eq, ExecutionResult-discrete)

-- `==` and `!=` where one side may be None
instance abbrev pub outcome_eq : Eq (Option ExecutionOutcome)
outcome_eq = derived_eq (hlevel ExecutionOutcome-discrete)

-- The exceptions, by class, with their `code` where the class has one.
pub data Failure : Type 0 where
  authorization_error routing_error billing_error content_safety_error provider_error :
      String → Failure
  conflict : String → Failure
  value_error repository_integrity : Failure
  -- `BillingCompensationError`, with `original_failure` and `compensation_failure`
  compensation_error : Failure → Failure → Failure
  -- any other exception of a collaborator, with its `code` if it has one
  other : Option String → Failure

-- `getattr(error, "code", None)`
abbrev pub code_of : Failure → Option String
code_of (Failure.authorization_error c) = some c
code_of (Failure.routing_error c) = some c
code_of (Failure.billing_error c) = some c
code_of (Failure.content_safety_error c) = some c
code_of (Failure.provider_error c) = some c
code_of (Failure.conflict c) = some c
code_of Failure.value_error = none
code_of Failure.repository_integrity = none
code_of (Failure.compensation_error e f) = some "billing_compensation_failed"
code_of (Failure.other c) = c

pub data Returned (A : Type 0) : Type 0 where
  returned : A → Returned A
  raised : Failure → Returned A

-- A call of a collaborator changes what is outside, and returns or raises.
abbrev pub Call : Type 0 → Type 0 → Type 0
Call S A = S → Returned A × S

-- The collaborators, over what they keep. `Reservation` is `GatewayReservation`.
pub record Collaborators (S Reservation : Type 0) : Type 0 where
  pub authorize : VerifiedIdentity → String → Product → String → Call S (Unit {0})
  pub authorize_estimated_charge : String → Product → String → String → Call S (Unit {0})
  pub authorize_input : String → Product → String → String → String → Call S (Unit {0})
  pub route : RouteRequest → Call S RouteResult
  pub reserve : String → Product → String → String → Call S Reservation
  pub execute : List String → ProviderRequest → Call S ExecutionResult
  pub authorize_output : String → Product → String → String → String → Call S (Unit {0})
  pub capture :
      Reservation → String → Option String → String → Option String → ℤ → ℤ → ℤ → Call S (Unit {0})
  pub release_on_failure : Reservation → Call S (Unit {0})

-- `AuditEvent` of audit.py, without its timestamp
pub record AuditEvent : Type 0 where
  pub event_type : String
  pub request_id : String
  pub outcome : String
  pub tenant_id : Option String
  pub subject : Option String
  pub product : Option String
  pub model : Option String
  pub provider : Option String
  pub reason_code : Option String
