-- ===== src/Gateway/Execution/Service.antt =====
-- `SecureExecutionService` of services/ai_gateway/execution.py: authorize, reserve, execute, and
-- settle or compensate.
use uwo_shared_platform.Prelude.{
  String, ◌∷◌, [], Bool, false, Option, none, some, is_none, if◌then◌else◌,
}
use uwo_shared_platform.Prelude.Keys.{string_eq, ◌==◌}
use uwo_shared_platform.Env.{Env, Json}
use uwo_shared_platform.Contracts.Domain.{product_value}
use uwo_shared_platform.Gateway.Router.{RouteRequest, RouteResult}
use uwo_shared_platform.Gateway.Execution.Data.{
  VerifiedIdentity, ProviderUsage, ExecutionResult, ExecutionOutcome, SecureExecutionRequest,
  SecureExecutionResult, Failure, Returned, returned, raised, Collaborators, AuditEvent,
}
use uwo_shared_platform.Gateway.Execution.Action.{
  State, Act, return, raise, raise_when, call, emit, ◌>>=◌, ◌>>◌,
}
use uwo_shared_platform.Gateway.Execution.Outcomes.{
  load_outcome, require_fingerprint, remember_provider_result, remember_failure, mark_captured,
  mark_compensation_failure, ensure_mandatory_events, or_default,
}

-- `_public_result`
unfoldable pub public_result : SecureExecutionRequest → ExecutionResult → SecureExecutionResult
public_result request result = record {
  request_id = request.request_id;
  provider = result.provider_id;
  model = request.model;
  region = request.region;
  output_text = result.response.output_text;
  provider_request_id = result.response.provider_request_id;
}

abbrev pub execution_audit :
    VerifiedIdentity → SecureExecutionRequest → String → String → AuditEvent
execution_audit identity request outcome provider = record {
  event_type = "provider.execution";
  request_id = request.request_id;
  outcome = outcome;
  tenant_id = some identity.tenant_id;
  subject = some identity.subject;
  product = some (product_value request.product);
  model = some request.model;
  provider = some provider;
  reason_code = none;
}

abbrev compensation_audit : SecureExecutionRequest → AuditEvent
compensation_audit request = record {
  event_type = "billing-compensation-failed";
  request_id = request.request_id;
  outcome = "failed";
  tenant_id = some request.tenant_id;
  subject = none;
  product = none;
  model = none;
  provider = none;
  reason_code = some "billing_compensation_failed";
}

module _ ⦃env : Env⦄ where
  -- `_fingerprint`
  unfoldable pub fingerprint_of : SecureExecutionRequest → String → String
  fingerprint_of request actor_subject = env.sha256_hex (
      env.json_dumps (
        ("actor_subject", Json.text actor_subject)
        ∷ ("tenant_id", Json.text request.tenant_id)
        ∷ ("product", Json.text (product_value request.product))
        ∷ ("model", Json.text request.model)
        ∷ ("region", Json.text request.region)
        ∷ ("prompt", Json.text request.prompt)
        ∷ []))

module _ {S A : Type 0} where
  abbrev pub handle : Returned A → (Failure → Act S A) → State S → Returned A × State S
  handle (returned a) handler w = (returned a, w)
  handle (raised e) handler w = handler e w

  -- `try: body except Exception as e: handler(e)`
  unfoldable pub catching : Act S A → (Failure → Act S A) → Act S A
  catching body handler w = let (r, w') = body w in handle r handler w'

abbrev is_content_safety : Option String → Bool
is_content_safety none = false
is_content_safety (some kind) = kind == "content_safety"

-- the exception of `_raise_stored_failure`
unfoldable pub stored_failure : ExecutionOutcome → Failure
stored_failure outcome =
    if is_content_safety outcome.failure_kind
    then Failure.content_safety_error (or_default outcome.failure_code "content_safety_denied")
    else Failure.provider_error (or_default outcome.failure_code "provider_failure")

module _ ⦃env : Env⦄ {S Reservation : Type 0} (k : Collaborators S Reservation) where
  -- `_compensate`
  unfoldable pub compensate :
      Reservation → SecureExecutionRequest → String → Failure → Act S (Unit {0})
  compensate reservation request fingerprint original =
      catching (call (k.release_on_failure reservation)) (λ compensation_error. do
        emit (compensation_audit request)
        outcome ← mark_compensation_failure request fingerprint
        raise (Failure.compensation_error original compensation_error))

  -- a failure is remembered, the reservation given back, and the failure raised
  unfoldable pub fail_execution :
      {A : Type 0} → Reservation → SecureExecutionRequest → String → String → Failure → Act S A
  fail_execution reservation request fingerprint provider_id original = do
    outcome ← remember_failure request fingerprint provider_id original
    compensate reservation request fingerprint original
    raise original

  -- the body of the `try` of `execute`
  unfoldable pub attempt :
      VerifiedIdentity → SecureExecutionRequest → RouteResult → Act S ExecutionResult
  attempt identity request route = do
    result ← call (
        k.execute (route.provider ∷ route.fallback) (record {
          request_id = request.request_id;
          tenant_id = identity.tenant_id;
          model = request.model;
          prompt = request.prompt;
        }))
    raise_when (is_none result.response.usage) (Failure.provider_error "missing_usage")
    call (
        k.authorize_output identity.tenant_id request.product request.model
          result.response.output_text request.request_id)
    return result

  -- the result of a new execution, remembered
  unfoldable pub run_provider :
      VerifiedIdentity
      → SecureExecutionRequest
      → String
      → RouteResult
      → Reservation
      → Act S ExecutionResult
  run_provider identity request fingerprint route reservation = do
    emit (execution_audit identity request "started" route.provider)
    result ←
        catching (attempt identity request route)
          (fail_execution reservation request fingerprint route.provider)
    outcome ← remember_provider_result request fingerprint result
    return result

  abbrev pub stored_result : Option ExecutionOutcome → Option ExecutionResult
  stored_result none = none
  stored_result (some outcome) = outcome.result

  abbrev pub or_run : Option ExecutionResult → Act S ExecutionResult → Act S ExecutionResult
  or_run none run = run
  or_run (some result) run = return result

  abbrev pub usage_or_fail : Option ProviderUsage → Act S ProviderUsage → Act S ProviderUsage
  usage_or_fail none fails = fails
  usage_or_fail (some usage) fails = return usage

  -- the rest of `execute` once there is a result: capture, and record the success
  unfoldable pub settle :
      VerifiedIdentity
      → SecureExecutionRequest
      → String
      → RouteResult
      → Reservation
      → ExecutionResult
      → Act S SecureExecutionResult
  settle identity request fingerprint route reservation result = do
    usage ← usage_or_fail result.response.usage (
        fail_execution reservation request fingerprint route.provider
          (Failure.provider_error "missing_usage"))
    call (
        k.capture reservation result.provider_id result.response.provider_model_id request.region
          result.response.provider_request_id usage.input_tokens usage.output_tokens
          usage.total_tokens)
    outcome ← mark_captured request fingerprint result
    emit (execution_audit identity request "succeeded" result.provider_id)
    return (public_result request result)

  -- a stored failure is compensated again, and raised again
  abbrev pub fail_again :
      Reservation
      → SecureExecutionRequest
      → String
      → ExecutionOutcome
      → Option String
      → Act S (Unit {0})
  fail_again reservation request fingerprint outcome none = return tt
  fail_again reservation request fingerprint outcome (some code) = do
    compensate reservation request fingerprint (Failure.provider_error code)
    raise (stored_failure outcome)

  abbrev pub fail_stored :
      Reservation → SecureExecutionRequest → String → Option ExecutionOutcome → Act S (Unit {0})
  fail_stored reservation request fingerprint none = return tt
  fail_stored reservation request fingerprint (some outcome) =
      fail_again reservation request fingerprint outcome outcome.failure_code

  -- `execute` from the charge's authorization on
  unfoldable pub execute_uncaptured :
      VerifiedIdentity
      → SecureExecutionRequest
      → String
      → Option ExecutionOutcome
      → Act S SecureExecutionResult
  execute_uncaptured identity request fingerprint stored = do
    call (
        k.authorize_estimated_charge identity.tenant_id request.product request.model
          request.request_id)
    call (
        k.authorize_input identity.tenant_id request.product request.model request.prompt
          request.request_id)
    route ← call (
        k.route (record {
          tenant_id = request.tenant_id;
          product = request.product;
          model = request.model;
          region = request.region;
        }))
    reservation ←
        call (k.reserve identity.tenant_id request.product request.model request.request_id)
    fail_stored reservation request fingerprint stored
    result ←
        or_run (stored_result stored) (run_provider identity request fingerprint route reservation)
    settle identity request fingerprint route reservation result

  abbrev pub resume :
      SecureExecutionRequest → String → Option ExecutionOutcome → Act S (Option ExecutionOutcome)
  resume request fingerprint none = return none
  resume request fingerprint (some outcome) = do
    require_fingerprint outcome fingerprint
    updated ← ensure_mandatory_events request fingerprint
    return (some updated)

  abbrev pub captured_result :
      SecureExecutionRequest → Option ExecutionResult → Act S SecureExecutionResult
  captured_result request none = raise (Failure.billing_error "execution_outcome_invalid")
  captured_result request (some result) = return (public_result request result)

  abbrev pub or_continue :
      SecureExecutionRequest
      → Option ExecutionOutcome
      → Act S SecureExecutionResult
      → Act S SecureExecutionResult
  or_continue request none rest = rest
  or_continue request (some outcome) rest =
      if outcome.captured then captured_result request outcome.result else rest

  -- `execute`
  unfoldable pub execute : VerifiedIdentity → SecureExecutionRequest → Act S SecureExecutionResult
  execute identity request = do
    call (k.authorize identity request.tenant_id request.product request.model)
    let fingerprint = fingerprint_of request identity.subject
    found ← load_outcome request.tenant_id request.request_id
    stored ← resume request fingerprint found
    or_continue request stored (execute_uncaptured identity request fingerprint stored)

  -- `authorize_route`
  unfoldable pub authorize_route : VerifiedIdentity → RouteRequest → String → Act S (Unit {0})
  authorize_route identity request request_id = do
    call (k.authorize identity request.tenant_id request.product request.model)
    emit (record {
      event_type = "route.authorization";
      request_id = request_id;
      outcome = "allowed";
      tenant_id = some identity.tenant_id;
      subject = some identity.subject;
      product = some (product_value request.product);
      model = some request.model;
      provider = none;
      reason_code = none;
    })
