-- ===== src/Gateway/Execution/Invariant/Calls.antt =====
-- Every call of `SecureExecutionService` keeps the invariant of the outcome store.
use uwo_shared_platform.Prelude.{
  String, ◌≡◌, refl, Bool, true, false, Option, none, some, List, [], ◌∷◌, arith,
}
use uwo_shared_platform.Prelude.Keys.{string_eq, pair_eq}
use uwo_shared_platform.Prelude.Dict.{get}
use uwo_shared_platform.Env.{Env}
use uwo_shared_platform.Gateway.Router.{RouteResult}
use uwo_shared_platform.Gateway.Execution.Data.{
  SecureExecutionResult, VerifiedIdentity, ExecutionResult, ExecutionOutcome,
  SecureExecutionRequest, Failure, Returned, returned, raised, Collaborators, Call, ProviderUsage,
  AuditEvent,
}
use uwo_shared_platform.Gateway.Execution.Action.{
  State, Act, return, raise, raise_when, call, emit, ◌>>=◌,
}
use uwo_shared_platform.Gateway.Execution.Outcomes.{require_fingerprint}
use uwo_shared_platform.Gateway.Execution.Service
use uwo_shared_platform.Gateway.Execution.Service.{
  catching, compensate, fail_execution, attempt, run_provider, settle, execute_uncaptured, execute,
  authorize_route,
}
use uwo_shared_platform.Gateway.Execution.Invariant.{IsSound, IsKept, Grows, Grows-refl, Good}
use uwo_shared_platform.Gateway.Execution.Invariant.Rules.{
  Any, Keeps, After, Does-bind, Does-if, Does-return, Does-raise, Does-call, Does-aside,
}
use uwo_shared_platform.Gateway.Execution.Invariant.Transactions.{
  Does-load_outcome, Does-remember_provider_result, Does-remember_failure, Does-mark_captured,
  Does-mark_compensation_failure, Does-ensure_mandatory_events,
}

module _ ⦃env : Env⦄ {S : Type 0} {w₀ : State S} where
  module _ {A : Type 0} where
    Keeps-return : (a : A) → Keeps w₀ (return a)
    Keeps-return a = Does-return a (λ o p. tt)

    Keeps-raise : (e : Failure) → Keeps w₀ (raise {A = A} e)
    Keeps-raise e = Does-raise e

    Keeps-call : (c : Call S A) → Keeps w₀ (call c)
    Keeps-call c = Does-call c

    caught :
        (handler : Failure → Act S A)
        → ((e : Failure) → Keeps w₀ (handler e))
        → (r : Returned A) (w : State S) → After w₀ (λ _. Any) r w
        → After w₀ (λ _. Any) (Service.handle r handler w).0 (Service.handle r handler w).1
    caught handler k (returned a) w g = g
    caught handler k (raised e) w g = (k e).at w g tt

    Keeps-catching :
        (body : Act S A) (handler : Failure → Act S A)
        → Keeps w₀ body
        → ((e : Failure) → Keeps w₀ (handler e))
        → Keeps w₀ (catching body handler)
    unfolding catching
    Keeps-catching body handler k h = record {
      at = λ w g p. caught handler h (body w).0 (body w).1 (k.at w g p);
    }

  module _ {A B : Type 0} where
    Keeps-bind :
        (m : Act S A) (f : A → Act S B)
        → Keeps w₀ m
        → ((a : A) → Keeps w₀ (f a))
        → Keeps w₀ (m >>= f)
    Keeps-bind m f k h = Does-bind _ m f k h

  Keeps-emit : (e : AuditEvent) → Keeps w₀ (emit e)
  Keeps-emit e = Does-aside (emit e) (λ w. (refl, refl))

  Keeps-raise_when : (b : Bool) (e : Failure) → Keeps w₀ (raise_when b e)
  Keeps-raise_when true e = Does-raise e
  Keeps-raise_when false e = Does-return tt (λ o p. tt)

  Keeps-require_fingerprint :
      (o : ExecutionOutcome) (print : String) → Keeps w₀ (require_fingerprint o print)
  unfolding require_fingerprint
  Keeps-require_fingerprint o print = Keeps-raise_when _ _

ruleset keeps_rules = (
  Keeps-return, Keeps-raise, Keeps-call, Keeps-catching, Keeps-bind, Keeps-emit, Keeps-raise_when,
  Keeps-require_fingerprint, Does-load_outcome, Does-remember_provider_result,
  Does-remember_failure, Does-mark_captured, Does-mark_compensation_failure,
  Does-ensure_mandatory_events,
)

module _ ⦃env : Env⦄ {S A : Type 0} {w₀ : State S} where
  Good-After : (r : Returned A) (w : State S) → After w₀ (λ _. Any) r w → Good w₀ w
  Good-After (returned a) w (g, q) = g
  Good-After (raised e) w g = g

module _ ⦃env : Env⦄ {S Reservation : Type 0} (k : Collaborators S Reservation) {w₀ : State S} where
  Keeps-compensate :
      (r : Reservation) (request : SecureExecutionRequest) (print : String) (e : Failure)
      → Keeps w₀ (compensate k r request print e)
  unfolding compensate
  Keeps-compensate r request print e = search keeps_rules

  Keeps-fail_execution :
      {A : Type 0} (r : Reservation) (request : SecureExecutionRequest) (print provider_id : String)
      (e : Failure)
      → Keeps w₀ (fail_execution k {A = A} r request print provider_id e)
  unfolding fail_execution
  Keeps-fail_execution r request print provider_id e = search (keeps_rules, Keeps-compensate)

  Keeps-attempt :
      (identity : VerifiedIdentity) (request : SecureExecutionRequest) (route : RouteResult)
      → Keeps w₀ (attempt k identity request route)
  unfolding attempt
  Keeps-attempt identity request route = search keeps_rules

  Keeps-run_provider :
      (identity : VerifiedIdentity) (request : SecureExecutionRequest) (print : String)
      (route : RouteResult) (r : Reservation)
      → Keeps w₀ (run_provider k identity request print route r)
  unfolding run_provider
  Keeps-run_provider identity request print route r =
      search (keeps_rules, Keeps-attempt, Keeps-fail_execution)

  Keeps-usage_or_fail :
      (usage : Option ProviderUsage) (fails : Act S ProviderUsage)
      → Keeps w₀ fails
      → Keeps w₀ (Service.usage_or_fail k usage fails)
  Keeps-usage_or_fail none fails h = h
  Keeps-usage_or_fail (some usage) fails h = Does-return usage (λ o p. tt)

  Keeps-or_run :
      (result : Option ExecutionResult) (run : Act S ExecutionResult)
      → Keeps w₀ run
      → Keeps w₀ (Service.or_run k result run)
  Keeps-or_run none run h = h
  Keeps-or_run (some result) run h = Does-return result (λ o p. tt)

  Keeps-settle :
      (identity : VerifiedIdentity) (request : SecureExecutionRequest) (print : String)
      (route : RouteResult) (r : Reservation) (result : ExecutionResult)
      → Keeps w₀ (settle k identity request print route r result)
  unfolding settle
  Keeps-settle identity request print route r result =
      search (keeps_rules, Keeps-usage_or_fail, Keeps-fail_execution)

  Keeps-fail_stored :
      (r : Reservation) (request : SecureExecutionRequest) (print : String)
      (stored : Option ExecutionOutcome)
      → Keeps w₀ (Service.fail_stored k r request print stored)
  Keeps-fail_stored r request print none = Does-return tt (λ o p. tt)
  Keeps-fail_stored r request print (some outcome) = fail_again outcome.failure_code
    where
      fail_again :
          (code : Option String) → Keeps w₀ (Service.fail_again k r request print outcome code)
      fail_again none = Does-return tt (λ o p. tt)
      fail_again (some code) = search (keeps_rules, Keeps-compensate)

  Keeps-execute_uncaptured :
      (identity : VerifiedIdentity) (request : SecureExecutionRequest) (print : String)
      (stored : Option ExecutionOutcome)
      → Keeps w₀ (execute_uncaptured k identity request print stored)
  unfolding execute_uncaptured
  Keeps-execute_uncaptured identity request print stored =
      search (keeps_rules, Keeps-or_run, Keeps-run_provider, Keeps-settle, Keeps-fail_stored) depth
        12

  Keeps-resume :
      (request : SecureExecutionRequest) (print : String) (found : Option ExecutionOutcome)
      → Keeps w₀ (Service.resume k request print found)
  Keeps-resume request print none = Does-return none (λ o p. tt)
  Keeps-resume request print (some outcome) = search keeps_rules

  Keeps-or_continue :
      (request : SecureExecutionRequest) (stored : Option ExecutionOutcome)
      (rest : Act S SecureExecutionResult)
      → Keeps w₀ rest
      → Keeps w₀ (Service.or_continue k request stored rest)
  Keeps-or_continue request none rest h = h
  Keeps-or_continue request (some outcome) rest h =
      Does-if outcome.captured _ _ (λ _. captured outcome.result) (λ _. h)
    where
      captured :
          (result : Option ExecutionResult) → Keeps w₀ (Service.captured_result k request result)
      captured none = Does-raise _
      captured (some result) = Does-return _ (λ o p. tt)

  Keeps-execute :
      (identity : VerifiedIdentity) (request : SecureExecutionRequest)
      → Keeps w₀ (execute k identity request)
  unfolding execute
  Keeps-execute identity request =
      search (keeps_rules, Keeps-resume, Keeps-or_continue, Keeps-execute_uncaptured)

-- The requests that the service is given, one after the other.
abbrev pub execute_all :
    ⦃env : Env⦄ {S Reservation : Type 0}
    → Collaborators S Reservation
    → List (VerifiedIdentity × SecureExecutionRequest)
    → State S
    → State S
execute_all k [] w = w
execute_all k ((identity, request) ∷ calls) w = execute_all k calls (execute k identity request w).1

module _ ⦃env : Env⦄ {S Reservation : Type 0} (k : Collaborators S Reservation) where
  Good-execute_all :
      {w₀ : State S} (calls : List (VerifiedIdentity × SecureExecutionRequest)) (w : State S)
      → Good w₀ w
      → Good w₀ (execute_all k calls w)
  Good-execute_all [] w g = g
  Good-execute_all ((identity, request) ∷ calls) w g =
      Good-execute_all calls (execute k identity request w).1
        (Good-After _ _ ((Keeps-execute k identity request).at w g tt))

  Good-start :
      (w : State S)
      → ((t q : String) (o : ExecutionOutcome)
          → get w.outcomes (t, q) ≡ some o
          → IsSound t q w.outbox o)
      → Good w w
  Good-start w sound = record {
    sound = sound;
    later = λ t q o found. (o, found, Grows-refl o);
    kept = λ id r found. found;
  }

  -- Whatever the collaborators do, and whether the calls return or raise: from a store without
  -- outcomes every stored outcome is a valid one, and each event that it is marked with has its
  -- record in the outbox.
  pub execute_all-IsSound :
      (calls : List (VerifiedIdentity × SecureExecutionRequest)) (w : State S)
      → w.outcomes ≡ []
      → (t q : String) {o : ExecutionOutcome} → get (execute_all k calls w).outcomes (t, q) ≡ some o
      → IsSound t q (execute_all k calls w).outbox o
  unfolding get
  execute_all-IsSound calls w empty t q {o} found =
      (Good-execute_all calls w (Good-start w (λ t' q' p h. absurd (ground arith)))).sound t q o
        found

  -- A stored outcome is never lost, replaced by that of another execution, or unmarked, by any
  -- calls from a sound store.
  pub execute_all-Grows :
      (calls : List (VerifiedIdentity × SecureExecutionRequest)) (w : State S)
      → ((t q : String) (o : ExecutionOutcome)
          → get w.outcomes (t, q) ≡ some o
          → IsSound t q w.outbox o)
      → (t q : String) {o : ExecutionOutcome} → get w.outcomes (t, q) ≡ some o
      → (p : ExecutionOutcome) × (get (execute_all k calls w).outcomes (t, q) ≡ some p) × Grows o p
  execute_all-Grows calls w sound t q {o} found =
      (Good-execute_all calls w (Good-start w sound)).later t q o found

  -- Calls from a sound store lose and change no record of the outbox.
  pub execute_all-IsKept :
      (calls : List (VerifiedIdentity × SecureExecutionRequest)) (w : State S)
      → ((t q : String) (o : ExecutionOutcome)
          → get w.outcomes (t, q) ≡ some o
          → IsSound t q w.outbox o)
      → IsKept w.outbox (execute_all k calls w).outbox
  execute_all-IsKept calls w sound = (Good-execute_all calls w (Good-start w sound)).kept
