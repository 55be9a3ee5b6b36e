-- ===== src/Tests/Execution.antt =====
-- The theorems on the execution service, at a request that is answered and asked again.
use uwo_shared_platform.Prelude.{
  ℕ, ◌+◌, String, ◌≡◌, refl, ap, Bool, true, false, Option, none, some, List, [], ◌∷◌,
  if◌then◌else◌, leb,
}
use uwo_shared_platform.Prelude.Int.{pos}
use uwo_shared_platform.Prelude.Keys.{string_eq, pair_eq}
use uwo_shared_platform.Prelude.Dict.{get}
use uwo_shared_platform.Env.{Json}
use uwo_shared_platform.Contracts.Domain.{Product}
use uwo_shared_platform.Gateway.Resilience.{Executor, Outside, provider_error, response}
use uwo_shared_platform.Gateway.Execution.Data.{
  VerifiedIdentity, ProviderResponse, ProviderUsage, ProviderRequest, ExecutionResult,
  ExecutionOutcome, SecureExecutionRequest, SecureExecutionResult, Returned, returned,
  Collaborators,
}
use uwo_shared_platform.Gateway.Execution.Action.{State}
use uwo_shared_platform.Gateway.Execution.Configured.{Reservation, configured}
use uwo_shared_platform.Gateway.Execution.Service.{execute, public_result, fingerprint_of}
use uwo_shared_platform.Gateway.Execution.Charged.{execute-IsCharged}
use uwo_shared_platform.Gateway.Execution.Replay.{IsRecorded, event_at, execute-replay}
use uwo_shared_platform.Gateway.Execution.Service.{execution_audit}
use uwo_shared_platform.Gateway.Execution.Invariant.{IsSound, IsKept, Grows}
use uwo_shared_platform.Gateway.Execution.Invariant.Calls.{
  execute_all, execute_all-IsSound, execute_all-Grows, execute_all-IsKept,
}
use uwo_shared_platform.DataServices.Outbox.{OutboxRecord, OutboxStatus}
use uwo_shared_platform.DataServices.Events.{PlatformEvent}
use uwo_shared_platform.Tests.World.{test_env}
use uwo_shared_platform.Tests.Inputs.{config, policy, executor_start}

abbrev answer : ProviderResponse
answer = record {
  provider_request_id = some "pr";
  output_text = "out";
  provider_model_id = some "m-1";
  usage = some (record { input_tokens = pos 3; output_tokens = pos 4; total_tokens = pos 7 });
}

-- the first two calls fail, and may be repeated
abbrev outside : ProviderRequest → Outside ℕ ProviderResponse
outside request = record {
  clock = λ n. n;
  is_due = λ now opened. leb (opened + 5) now;
  has_adapter = λ id. true;
  reply = λ id n. if leb 2 n then response answer else provider_error true true;
}

abbrev gateway : Collaborators (Executor ℕ) Reservation
gateway = configured (λ s. "TT") (λ s. s) policy outside config

abbrev identity : VerifiedIdentity
identity = record { subject = "u"; tenant_id = "t1" }

abbrev request : SecureExecutionRequest
request = record {
  request_id = "r1";
  tenant_id = "t1";
  product = Product.aisa;
  model = "m";
  region = "eu";
  prompt = "hi";
}

abbrev empty : State (Executor ℕ)
empty = record {
  outcomes = [];
  outbox = [];
  fail_next = none;
  audit = [];
  ticks = 0;
  outside = executor_start;
}

abbrev once : List (VerifiedIdentity × SecureExecutionRequest)
once = (identity, request) ∷ []

abbrev result : ExecutionResult
result = record { provider_id = "p3"; response = answer }

abbrev outcome : ExecutionOutcome
outcome = record {
  fingerprint = "actor_subjectutenant_idt1productaisamodelmregioneuprompthi";
  result = some result;
  captured = true;
  success_event_enqueued = true;
  failure_code = none;
  failure_kind = none;
  provider_id = some "p3";
  failure_event_enqueued = false;
  compensation_failed = false;
  compensation_failure_event_enqueued = false;
}

abbrev recorded : OutboxRecord PlatformEvent
recorded = record {
  record_id = "outbox-outboxevt-evtprovider.execution.";
  event = record {
    event_id = "evt-evtprovider.execution.succeededt";
    event_type = "provider.execution.succeeded";
    tenant_id = "t1";
    occurred_at = "TT";
    request_id = "r1";
    attributes =
        ("product", Json.text "aisa")
        ∷ ("region", Json.text "eu")
        ∷ ("provider_id", Json.text "p3")
        ∷ [];
  };
  status = OutboxStatus.pending;
  attempts = 0;
  next_attempt_at = none;
  version = 1;
  lease_owner = none;
  lease_expires_at = none;
  max_attempts = 5;
}

abbrev after : State (Executor ℕ)
after = record {
  outcomes = (("t1", "r1"), outcome) ∷ [];
  outbox = (recorded.record_id, recorded) ∷ [];
  fail_next = none;
  audit =
      execution_audit identity request "succeeded" "p3"
      ∷ execution_audit identity request "started" "p1"
      ∷ [];
  ticks = 1;
  outside = record {
    states =
        ("p1", record { failures = 2; opened_at = some 0 })
        ∷ ("p3", record { failures = 0; opened_at = none })
        ∷ [];
    readings = 1;
    calls = 3;
    sleeps = 1;
  };
}

-- the first provider fails twice, the second answers, and the answer is charged
answers_once :
    execute gateway identity request empty ≡ (returned (public_result request result), after)
unfolding uwo_shared_platform.Gateway.Execution.Service.execute uwo_shared_platform.Prelude.Dict.get
    uwo_shared_platform.Gateway.Execution.Action.◌>>=◌
    uwo_shared_platform.Gateway.Execution.Configured.configured
    uwo_shared_platform.Contracts.Checks.decision_valid
    uwo_shared_platform.Contracts.Text.is_identifier uwo_shared_platform.Gateway.Access.authorize
    uwo_shared_platform.Contracts.Domain.product_value
    uwo_shared_platform.Gateway.Execution.Outcomes.load_outcome
    uwo_shared_platform.Gateway.Execution.Action.transaction
    uwo_shared_platform.Gateway.Execution.Service.execute_uncaptured
    uwo_shared_platform.Gateway.Access.authorize_billing
    uwo_shared_platform.Gateway.ContentSafety.authorize_content
    uwo_shared_platform.Contracts.Text.is_substring uwo_shared_platform.Gateway.Router.route
    uwo_shared_platform.Gateway.Router.skipped
    uwo_shared_platform.Gateway.Execution.Service.run_provider
    uwo_shared_platform.Gateway.Execution.Service.catching
    uwo_shared_platform.Gateway.Execution.Service.attempt
    uwo_shared_platform.Gateway.Resilience.execute
    uwo_shared_platform.DataServices.Events.attributes_valid
    uwo_shared_platform.DataServices.Events.deterministic_id
    uwo_shared_platform.DataServices.Events.event_id_of
    uwo_shared_platform.DataServices.Events.event_valid
    uwo_shared_platform.DataServices.Events.platform_event
    uwo_shared_platform.DataServices.Outbox.enqueue
    uwo_shared_platform.DataServices.Outbox.record_valid
    uwo_shared_platform.DataServices.Outbox.stable uwo_shared_platform.Env.is_utc
    uwo_shared_platform.Gateway.Execution.Data.ExecutionOutcome-discrete
    uwo_shared_platform.Gateway.Execution.Data.ExecutionResult-discrete
    uwo_shared_platform.Gateway.Execution.Data.outcome_valid
    uwo_shared_platform.Gateway.Execution.Outcomes.mark_captured
    uwo_shared_platform.Gateway.Execution.Outcomes.remember_provider_result
    uwo_shared_platform.Gateway.Execution.Outcomes.require_fingerprint
    uwo_shared_platform.Gateway.Execution.Service.fingerprint_of
    uwo_shared_platform.Gateway.Execution.Service.settle
    uwo_shared_platform.Gateway.Execution.Store.enqueue
    uwo_shared_platform.Gateway.Execution.Store.enqueue_event
    uwo_shared_platform.Gateway.Execution.Store.fail
    uwo_shared_platform.Gateway.Execution.Store.make_event
    uwo_shared_platform.Gateway.Execution.Store.put
    uwo_shared_platform.Gateway.Execution.Store.put_changed
    uwo_shared_platform.Gateway.Execution.Store.write_outcome
    uwo_shared_platform.Gateway.Resilience.available uwo_shared_platform.Gateway.Resilience.failure
    uwo_shared_platform.Gateway.Resilience.success uwo_shared_platform.Gateway.Resilience.turn
    uwo_shared_platform.Prelude.Dict.set uwo_shared_platform.Prelude.Keys.Eq-discrete
answers_once = refl

all_once : execute_all gateway once empty ≡ after
all_once = ap (λ (x : Returned SecureExecutionResult × State (Executor ℕ)). x.1) answers_once

stored_after : get after.outcomes ("t1", "r1") ≡ some outcome
unfolding get
stored_after = refl

stored_once : get (execute_all gateway once empty).outcomes ("t1", "r1") ≡ some outcome
stored_once = rw all_once stored_after

execute_all-IsSound_example : IsSound "t1" "r1" (execute_all gateway once empty).outbox outcome
execute_all-IsSound_example = execute_all-IsSound gateway once empty refl "t1" "r1" stored_once

execute_all-Grows_example :
    (p : ExecutionOutcome) × (get
        (execute_all gateway once (execute_all gateway once empty)).outcomes
        ("t1", "r1")
      ≡ some p)
    × Grows outcome p
execute_all-Grows_example =
    execute_all-Grows gateway once (execute_all gateway once empty)
      (λ t q o h. execute_all-IsSound gateway once empty refl t q h) "t1" "r1" stored_once

execute_all-IsKept_example :
    IsKept
      (execute_all gateway once empty).outbox
      (execute_all gateway once (execute_all gateway once empty)).outbox
execute_all-IsKept_example =
    execute_all-IsKept gateway once (execute_all gateway once empty)
      (λ t q o h. execute_all-IsSound gateway once empty refl t q h)

execute-IsCharged_example :
    (o : ExecutionOutcome) × (r : ExecutionResult) × (get after.outcomes ("t1", "r1") ≡ some o)
    × (o.captured ≡ true)
    × (o.result ≡ some r)
    × (o.fingerprint ≡ fingerprint_of request "u")
    × (public_result request result ≡ public_result request r)
execute-IsCharged_example = execute-IsCharged gateway identity request empty answers_once

after-IsRecorded : IsRecorded after (event_at request "provider.execution.succeeded" "p3" none 1)
unfolding get uwo_shared_platform.DataServices.Events.deterministic_id
    uwo_shared_platform.DataServices.Events.platform_event
    uwo_shared_platform.DataServices.Events.event_id_of
    uwo_shared_platform.Contracts.Domain.product_value
    uwo_shared_platform.DataServices.Events.event_valid
    uwo_shared_platform.DataServices.Outbox.stable uwo_shared_platform.Env.is_utc
    uwo_shared_platform.DataServices.Events.attributes_valid
    uwo_shared_platform.Contracts.Text.is_substring
after-IsRecorded = record {
  entry = recorded;
  found = refl;
  same_id = refl;
  same_type = refl;
  valid = refl;
}

execute-replay_example :
    execute gateway identity request after
    ≡ (returned (public_result request result), record after { ticks = 2 })
unfolding fingerprint_of uwo_shared_platform.Contracts.Domain.product_value
    uwo_shared_platform.Gateway.Execution.Data.outcome_valid configured
    uwo_shared_platform.Gateway.Access.authorize get
execute-replay_example =
    execute-replay gateway identity request after {o = outcome} {result = result} stored_after refl
      refl refl refl refl after-IsRecorded refl
