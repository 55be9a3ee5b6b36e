-- ===== src/Gateway/Execution/Store.antt =====
-- The outcome store of services/ai_gateway/execution.py and `_enqueue_event`.
use uwo_shared_platform.Prelude.{
  ◌+◌, String, Bool, true, false, not, ◌||◌, Option, none, some, List, [], ◌∷◌, if◌then◌else◌,
}
use uwo_shared_platform.Prelude.Keys.{string_eq, pair_eq, ◌==◌}
use uwo_shared_platform.Prelude.Dict.{get, set}
use uwo_shared_platform.Errors.{Result, ok, err}
use uwo_shared_platform.Env.{Env, Json}
use uwo_shared_platform.Contracts.Domain.{product_value}
use uwo_shared_platform.DataServices.Outbox
use uwo_shared_platform.DataServices.Outbox.{OutboxStatus, OutboxRecord, record_valid}
use uwo_shared_platform.DataServices.Events.{
  record_id_of, pending_record, PlatformEvent, event_eq, event_valid, platform_event,
}
use uwo_shared_platform.Gateway.Execution.Data.{
  ExecutionOutcome, SecureExecutionRequest, Failure, Returned, returned, raised, outcome_eq,
}
use uwo_shared_platform.Gateway.Execution.Action.{
  Operation, State, Act, return, gets, construct, raise_when, modify, ◌>>=◌, ◌>>◌,
}

abbrev pub is_armed : Option Operation → Operation → Bool
is_armed (some Operation.outcome) Operation.outcome = true
is_armed (some Operation.outbox) Operation.outbox = true
is_armed _ _ = false

module _ {S : Type 0} where
  -- `_fail`
  unfoldable pub fail : Operation → Act S (Unit {0})
  fail operation w =
      if is_armed w.fail_next operation
      then (raised Failure.repository_integrity, record w { fail_next = none })
      else (returned tt, w)

  -- `_OutcomeRepository.get`
  abbrev pub get_outcome : String → String → Act S (Option ExecutionOutcome)
  get_outcome tenant_id request_id = gets (λ w. get w.outcomes (tenant_id, request_id))

  -- the write of `_OutcomeRepository.put`
  unfoldable pub write_outcome : String → String → ExecutionOutcome → Act S (Unit {0})
  write_outcome tenant_id request_id value =
      modify (λ w. record w { outcomes = set w.outcomes (tenant_id, request_id) value })

  -- `_OutcomeRepository.put`
  unfoldable pub put :
      String → String → ExecutionOutcome → Option ExecutionOutcome → Act S ExecutionOutcome
  put tenant_id request_id value expected = do
    fail Operation.outcome
    current ← get_outcome tenant_id request_id
    raise_when (not (current == expected)) (Failure.billing_error "stale_execution_outcome")
    write_outcome tenant_id request_id value
    return value

  -- `if updated != existing: tx.outcomes.put(…)`
  unfoldable pub put_changed :
      SecureExecutionRequest → ExecutionOutcome → Option ExecutionOutcome → Act S ExecutionOutcome
  put_changed request updated existing =
      if some updated == existing
      then return updated
      else put request.tenant_id request.request_id updated existing

abbrev reason_of : Option String → List (String × Json)
reason_of none = []
reason_of (some code) = ("reason_code", Json.text code) ∷ []

-- the attributes of `_event`
abbrev pub attributes_of : SecureExecutionRequest → String → Option String → List (String × Json)
attributes_of request provider_id reason_code =
    ("product", Json.text (product_value request.product))
    ∷ ("region", Json.text request.region)
    ∷ ("provider_id", Json.text provider_id)
    ∷ reason_of reason_code

module _ ⦃env : Env⦄ where
  module _ {S : Type 0} where
    -- `_event`, which reads the clock
    unfoldable pub make_event :
        String → SecureExecutionRequest → String → Option String → Act S PlatformEvent
    make_event event_type request provider_id reason_code w =
        let event =
          platform_event event_type request.tenant_id request.request_id
            (attributes_of request provider_id reason_code) (env.utc_now w.ticks) in
        construct (event_valid event) event (record w { ticks = w.ticks + 1 })

    abbrev pub put_outbox :
        State S
        → Result (OutboxRecord PlatformEvent × List (String × OutboxRecord PlatformEvent))
        → Returned (Unit {0}) × State S
    put_outbox w (ok (stored, outbox)) = (returned tt, record w { outbox = outbox })
    put_outbox w (err e) = (raised (Failure.conflict "outbox_conflict"), w)

    -- `InMemoryOutbox.enqueue`, which raises no other error than that conflict
    unfoldable pub enqueue : OutboxRecord PlatformEvent → Act S (Unit {0})
    enqueue r w = put_outbox w (Outbox.enqueue env.is_alnum r w.outbox)

    abbrev pub enqueue_new : PlatformEvent → Option (OutboxRecord PlatformEvent) → Act S (Unit {0})
    enqueue_new event (some existing) =
        raise_when
          (not (existing.event.event_id == event.event_id)
            || not (existing.event.event_type == event.event_type))
          (Failure.billing_error "execution_event_conflict")
    enqueue_new event none = do
      r ← construct (record_valid env.is_alnum (pending_record event)) (pending_record event)
      fail Operation.outbox
      enqueue r

    -- `_enqueue_event`
    unfoldable pub enqueue_event :
        String → SecureExecutionRequest → String → Option String → Act S (Unit {0})
    enqueue_event event_type request provider_id reason_code = do
      event ← make_event event_type request provider_id reason_code
      existing ← gets (λ w. get w.outbox (record_id_of event.event_id))
      enqueue_new event existing
