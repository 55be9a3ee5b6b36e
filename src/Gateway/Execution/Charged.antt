-- ===== src/Gateway/Execution/Charged.antt =====
-- What a call of `SecureExecutionService.execute` that returns has stored.
pub mod Transactions
use uwo_shared_platform.Prelude.{
  String, ◌≡◌, refl, Bool, true, false, not, ◌||◌, Option, none, some, List, [], ◌∷◌, arith, inl,
  inr, Option-cases, Bool-cases, if◌then◌else◌, sym, subst, ◌∙◌,
}
use uwo_shared_platform.Prelude.Keys.{string_eq, pair_eq, ◌==◌}
use uwo_shared_platform.Prelude.Dict.{get, set, get-set_self}
use uwo_shared_platform.Errors.{Result-cases}
use uwo_shared_platform.Env.{Env}
use uwo_shared_platform.DataServices.Outbox
use uwo_shared_platform.DataServices.Outbox.{OutboxRecord, record_valid}
use uwo_shared_platform.DataServices.Events.{pending_record, PlatformEvent, event_eq, event_valid}
use uwo_shared_platform.Gateway.Router.{RouteResult}
use uwo_shared_platform.Gateway.Execution.Data.{
  VerifiedIdentity, ExecutionResult, ExecutionOutcome, SecureExecutionRequest,
  SecureExecutionResult, AuditEvent, Failure, Returned, returned, raised, Collaborators,
  outcome_valid, result_eq, outcome_eq,
}
use uwo_shared_platform.Gateway.Execution.Action
use uwo_shared_platform.Gateway.Execution.Action.{
  Operation, State, Act, return, raise, gets, or_raise, construct, raise_when, call, emit,
  transaction, proceed, ◌>>=◌, ◌>>◌,
}
use uwo_shared_platform.Gateway.Execution.Store
use uwo_shared_platform.Gateway.Execution.Store.{
  fail, put, put_changed, write_outcome, make_event, enqueue, enqueue_event,
}
use uwo_shared_platform.Gateway.Execution.Outcomes
use uwo_shared_platform.Gateway.Execution.Outcomes.{
  load_outcome, require_fingerprint, mark_captured, ensure_mandatory_events, or_default,
}
use uwo_shared_platform.Gateway.Execution.Service
use uwo_shared_platform.Gateway.Execution.Service.{
  public_result, fingerprint_of, run_provider, settle, execute_uncaptured, execute,
}
use uwo_shared_platform.Gateway.Execution.Gives.{
  Post, Top, Aside, Aside-bind, Gives, Gives-Aside, Gives-bind, Gives-construct, Gives-constructed,
  Gives-fact, Gives-gets, Gives-if, Gives-or_raise, Gives-pre, Gives-raise_when, Gives-skip,
  Gives-test, Gives-transaction, Gives-weaken,
}
use uwo_shared_platform.Gateway.Execution.Charged.Transactions.{
  Aside-enqueue, Aside-enqueue_event, Aside-enqueue_new, Aside-fail, Gives-ensure_compensation,
  Gives-ensure_failure, Gives-ensure_mandatory_events, Gives-ensure_success, Gives-mark,
  Gives-mark_captured, Gives-post, Gives-put, Gives-put_changed, Gives-write, Stored, IsCharged,
}

-- what a response of `execute` rests on
abbrev Answered :
    {S : Type 0} → SecureExecutionRequest → String → SecureExecutionResult → State S → Type 0
Answered request fingerprint r w =
    (result : ExecutionResult) × IsCharged request fingerprint result w
    × (r ≡ public_result request result)

abbrev Resumed :
    {S : Type 0} → SecureExecutionRequest → String → Option ExecutionOutcome → State S → Type 0
Resumed request fingerprint none w = Unit
Resumed request fingerprint (some o) w = Stored request o w × (o.fingerprint ≡ fingerprint)

module _ ⦃env : Env⦄ {S Reservation : Type 0} (k : Collaborators S Reservation)
    (request : SecureExecutionRequest) (fingerprint : String) where
  Gives-answer :
      (e : AuditEvent) (result : ExecutionResult)
      → Gives {S = S}
          (IsCharged request fingerprint result)
          (emit e >> return (public_result request result))
          (Answered request fingerprint)
  unfolding ◌>>=◌
  Gives-answer e result = record {
    at = λ w c. (
      result,
      record {
        outcome = c.outcome;
        stored = c.stored;
        captured = c.captured;
        has_result = c.has_result;
        same_input = c.same_input;
      },
      refl,
    );
  }

  Gives-settle :
      (identity : VerifiedIdentity) (route : RouteResult) (r : Reservation)
      (result : ExecutionResult)
      → Gives Top
          (settle k identity request fingerprint route r result)
          (Answered request fingerprint)
  unfolding settle
  Gives-settle identity route r result = Gives-skip _ _ (λ usage. Gives-skip _ _ (λ _.
      Gives-bind _ _ _ (Gives-mark_captured request fingerprint result)
        (λ _. Gives-answer _ result)))

  Gives-execute_uncaptured :
      (identity : VerifiedIdentity) (stored : Option ExecutionOutcome)
      → Gives Top
          (execute_uncaptured k identity request fingerprint stored)
          (Answered request fingerprint)
  unfolding execute_uncaptured
  Gives-execute_uncaptured identity stored = Gives-skip _ _ (λ _. Gives-skip _ _ (λ _.
      Gives-skip _ _ (λ route. Gives-skip _ _ (λ r.
        Gives-skip _ _ (λ _. Gives-skip _ _ (λ result. Gives-settle identity route r result))))))

  Gives-resume :
      (found : Option ExecutionOutcome)
      → Gives Top (Service.resume k request fingerprint found) (Resumed request fingerprint)
  unfolding ◌>>=◌
  Gives-resume none = record { at = λ w p. tt }
  Gives-resume (some outcome) = Gives-skip _ _ (λ _.
      Gives-bind _ _ _ (Gives-ensure_mandatory_events request fingerprint)
        (λ updated. record { at = λ w h. h }))

  Gives-captured_result :
      (o : ExecutionOutcome) (result : Option ExecutionResult)
      → o.result ≡ result
      → o.captured ≡ true
      → Gives
          (Resumed request fingerprint (some o))
          (Service.captured_result k request result)
          (Answered request fingerprint)
  Gives-captured_result o none e c = record { at = λ w h. tt }
  Gives-captured_result o (some result) e c = record {
    at = λ w (stored, same). (
      result,
      record { outcome = o; stored = stored; captured = c; has_result = e; same_input = same },
      refl,
    );
  }

  Gives-or_continue :
      (stored : Option ExecutionOutcome) (rest : Act S SecureExecutionResult)
      → Gives Top rest (Answered request fingerprint)
      → Gives
          (Resumed request fingerprint stored)
          (Service.or_continue k request stored rest)
          (Answered request fingerprint)
  Gives-or_continue none rest h = h
  Gives-or_continue (some o) rest h =
      Gives-test o.captured _ rest (Gives-captured_result o o.result refl)
        (Gives-pre _ rest (λ w p. tt) h)

module _ ⦃env : Env⦄ {S Reservation : Type 0} (k : Collaborators S Reservation) where
  Gives-execute :
      (identity : VerifiedIdentity) (request : SecureExecutionRequest)
      → Gives Top
          (execute k identity request)
          (Answered request (fingerprint_of request identity.subject))
  unfolding execute
  Gives-execute identity request =
      let fingerprint = fingerprint_of request identity.subject in
      Gives-skip _ _ (λ _. Gives-skip _ _ (λ found.
        Gives-bind _ _ _ (Gives-resume k request fingerprint found) (λ stored.
          Gives-or_continue k request fingerprint stored _
            (Gives-execute_uncaptured k request fingerprint identity stored))))

  -- A response is given only once its result is stored as captured, under the fingerprint of this
  -- very input, and it is the public part of that result.
  pub execute-IsCharged :
      (identity : VerifiedIdentity) (request : SecureExecutionRequest) (w : State S)
      {r : SecureExecutionResult} {w' : State S}
      → execute k identity request w ≡ (returned r, w')
      → (o : ExecutionOutcome) × (result : ExecutionResult) × (get w'.outcomes
            (request.tenant_id, request.request_id)
          ≡ some o)
        × (o.captured ≡ true)
        × (o.result ≡ some result)
        × (o.fingerprint ≡ fingerprint_of request identity.subject)
        × (r ≡ public_result request result)
  execute-IsCharged identity request w {r} {w'} h =
      let (result, charged, same) =
        subst
          (λ (x : Returned SecureExecutionResult × State S).
            Post (Answered request (fingerprint_of request identity.subject)) x.0 x.1)
          h ((Gives-execute identity request).at w tt) in
      (
        charged.outcome, result, charged.stored, charged.captured, charged.has_result,
        charged.same_input, same,
      )
