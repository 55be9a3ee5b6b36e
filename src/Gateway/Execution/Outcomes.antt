-- ===== src/Gateway/Execution/Outcomes.antt =====
-- The transactions of `SecureExecutionService` on an outcome (services/ai_gateway/execution.py).
use uwo_shared_platform.Prelude.{
  String, Bool, true, false, not, ◌||◌, Option, none, some, is_some, if◌then◌else◌,
}
use uwo_shared_platform.Prelude.Keys.{string_eq, ◌==◌}
use uwo_shared_platform.Env.{Env}
use uwo_shared_platform.Gateway.Execution.Data.{
  ExecutionResult, ExecutionOutcome, SecureExecutionRequest, Failure, outcome_valid, result_eq,
  code_of,
}
use uwo_shared_platform.Gateway.Execution.Action.{
  Act, return, or_raise, construct, raise_when, transaction, ◌>>=◌, ◌>>◌,
}
use uwo_shared_platform.Gateway.Execution.Store.{get_outcome, put, put_changed, enqueue_event}

abbrev pub conflicting : Failure
conflicting = Failure.billing_error "idempotency_conflict"

abbrev pub missing : Failure
missing = Failure.billing_error "execution_outcome_missing"

-- `value or default`
abbrev pub or_default : Option String → String → String
or_default none d = d
or_default (some s) d = if s == "" then d else s

-- `_failure_kind`
abbrev pub failure_kind : Failure → String
failure_kind (Failure.content_safety_error _) = "content_safety"
failure_kind _ = "provider"

abbrev pub failure_code_of : Option String → String
failure_code_of none = "provider_failure"
failure_code_of (some code) = code

abbrev pub new_result : String → ExecutionResult → ExecutionOutcome
new_result fingerprint result = record {
  fingerprint = fingerprint;
  result = some result;
  captured = false;
  success_event_enqueued = false;
  failure_code = none;
  failure_kind = none;
  provider_id = some result.provider_id;
  failure_event_enqueued = false;
  compensation_failed = false;
  compensation_failure_event_enqueued = false;
}

abbrev pub new_failure : String → String → String → String → ExecutionOutcome
new_failure fingerprint code kind provider_id = record {
  fingerprint = fingerprint;
  result = none;
  captured = false;
  success_event_enqueued = false;
  failure_code = some code;
  failure_kind = some kind;
  provider_id = some provider_id;
  failure_event_enqueued = false;
  compensation_failed = false;
  compensation_failure_event_enqueued = false;
}

abbrev pub result_provider : Option ExecutionResult → String
result_provider none = "unknown-provider"
result_provider (some result) = result.provider_id

-- `code == value`, where `code` may be None
abbrev is_code : Option String → String → Bool
is_code none value = false
is_code (some code) value = code == value

module _ {S : Type 0} where
  -- `_load_outcome`
  unfoldable pub load_outcome : String → String → Act S (Option ExecutionOutcome)
  load_outcome tenant_id request_id = transaction (get_outcome tenant_id request_id)

  -- `_require_fingerprint`
  unfoldable pub require_fingerprint : ExecutionOutcome → String → Act S (Unit {0})
  require_fingerprint outcome fingerprint =
      raise_when (not (outcome.fingerprint == fingerprint)) conflicting

  abbrev pub remember_new :
      SecureExecutionRequest
      → String
      → ExecutionResult
      → Option ExecutionOutcome
      → Act S ExecutionOutcome
  remember_new request fingerprint result (some existing) = do
    require_fingerprint existing fingerprint
    raise_when (not (existing.result == some result)) conflicting
    return existing
  remember_new request fingerprint result none = do
    value ←
        construct (outcome_valid (new_result fingerprint result)) (new_result fingerprint result)
    put request.tenant_id request.request_id value none

  -- `_remember_provider_result`
  unfoldable pub remember_provider_result :
      SecureExecutionRequest → String → ExecutionResult → Act S ExecutionOutcome
  remember_provider_result request fingerprint result = transaction (do
    existing ← get_outcome request.tenant_id request.request_id
    remember_new request fingerprint result existing)

  abbrev pub failure_outcome :
      String → String → String → String → Option ExecutionOutcome → Act S ExecutionOutcome
  failure_outcome fingerprint code kind provider_id (some existing) = do
    require_fingerprint existing fingerprint
    raise_when (is_some existing.result || not (is_code existing.failure_code code)) conflicting
    return existing
  failure_outcome fingerprint code kind provider_id none =
      construct (outcome_valid (new_failure fingerprint code kind provider_id))
        (new_failure fingerprint code kind provider_id)

  -- the record that `replace` makes
  abbrev replaced : ExecutionOutcome → Act S ExecutionOutcome
  replaced o = construct (outcome_valid o) o

module _ ⦃env : Env⦄ {S : Type 0} where
  -- `_remember_failure`
  unfoldable pub remember_failure :
      SecureExecutionRequest → String → String → Failure → Act S ExecutionOutcome
  remember_failure request fingerprint provider_id error =
      let code = failure_code_of (code_of error) in
      transaction (do
        existing ← get_outcome request.tenant_id request.request_id
        value ← failure_outcome fingerprint code (failure_kind error) provider_id existing
        enqueue_event "provider.execution.failed" request provider_id (some code)
        updated ← replaced (record value { failure_event_enqueued = true })
        put_changed request updated existing)

  -- `_mark_captured_and_enqueue_success`
  unfoldable pub mark_captured :
      SecureExecutionRequest → String → ExecutionResult → Act S ExecutionOutcome
  mark_captured request fingerprint result = transaction (do
    found ← get_outcome request.tenant_id request.request_id
    existing ← or_raise found missing
    require_fingerprint existing fingerprint
    raise_when (not (existing.result == some result)) conflicting
    enqueue_event "provider.execution.succeeded" request result.provider_id none
    updated ← replaced (record existing { captured = true; success_event_enqueued = true })
    put_changed request updated (some existing))

  -- `_mark_compensation_failure`
  unfoldable pub mark_compensation_failure :
      SecureExecutionRequest → String → Act S ExecutionOutcome
  mark_compensation_failure request fingerprint = transaction (do
    found ← get_outcome request.tenant_id request.request_id
    existing ← or_raise found missing
    require_fingerprint existing fingerprint
    enqueue_event "billing.reservation-compensation-failed" request
        (or_default existing.provider_id "unknown-provider") (some "billing_compensation_failed")
    updated ←
        replaced (record existing {
          compensation_failed = true;
          compensation_failure_event_enqueued = true;
        })
    put_changed request updated (some existing))

  abbrev pub ensure_success :
      SecureExecutionRequest → String → ExecutionOutcome → Act S ExecutionOutcome
  ensure_success request provider_id outcome = if not outcome.captured then return outcome else do
    enqueue_event "provider.execution.succeeded" request provider_id none
    replaced (record outcome { success_event_enqueued = true })

  abbrev pub ensure_failure :
      SecureExecutionRequest → String → Option String → ExecutionOutcome → Act S ExecutionOutcome
  ensure_failure request provider_id none outcome = return outcome
  ensure_failure request provider_id (some code) outcome = do
    enqueue_event "provider.execution.failed" request provider_id (some code)
    replaced (record outcome { failure_event_enqueued = true })

  abbrev pub ensure_compensation :
      SecureExecutionRequest → String → ExecutionOutcome → Act S ExecutionOutcome
  ensure_compensation request provider_id outcome =
      if not outcome.compensation_failed then return outcome else do
        enqueue_event "billing.reservation-compensation-failed" request provider_id
            (some "billing_compensation_failed")
        replaced (record outcome { compensation_failure_event_enqueued = true })

  -- `_ensure_mandatory_events`; each of the three tests reads a field that the others leave
  unfoldable pub ensure_mandatory_events : SecureExecutionRequest → String → Act S ExecutionOutcome
  ensure_mandatory_events request fingerprint = transaction (do
    found ← get_outcome request.tenant_id request.request_id
    current ← or_raise found missing
    require_fingerprint current fingerprint
    let provider_id = or_default current.provider_id (result_provider current.result)
    one ← ensure_success request provider_id current
    two ← ensure_failure request provider_id current.failure_code one
    updated ← ensure_compensation request provider_id two
    put_changed request updated (some current))
