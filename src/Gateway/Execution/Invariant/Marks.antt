-- ===== src/Gateway/Execution/Invariant/Marks.antt =====
-- An outcome that is marked with an event fits in the place of the unmarked one.
use uwo_shared_platform.Prelude.{String, ◌≡◌, refl, Bool, true, Option, none, some, arith, inl, inr}
use uwo_shared_platform.Prelude.Keys.{string_eq}
use uwo_shared_platform.Env.{Env}
use uwo_shared_platform.Gateway.Execution.Data.{
  ExecutionResult, ExecutionOutcome, SecureExecutionRequest, outcome_valid, result_eq,
}
use uwo_shared_platform.Gateway.Execution.Action.{State, construct, ◌>>=◌, ◌>>◌}
use uwo_shared_platform.Gateway.Execution.Store.{put_changed, enqueue_event}
use uwo_shared_platform.Gateway.Execution.Outcomes.{new_result, new_failure}
use uwo_shared_platform.Gateway.Execution.Invariant.{
  Events, Recorded, Fits, Fits-mono, GrowsFrom-trans, Grows-refl,
}
use uwo_shared_platform.Gateway.Execution.Invariant.Rules.{
  Any, Does, Does-construct, Does-bind, Does-pre, Does-constructed,
}
use uwo_shared_platform.Gateway.Execution.Invariant.Writes.{Does-put_changed, Does-enqueue_event}

module _ ⦃env : Env⦄ (t q : String) where
  pub Fits-self : (b : Events) (o : ExecutionOutcome) → Fits t q b (some o) o
  Fits-self b o = record {
    valid = λ h. h;
    grows = Grows-refl o;
    success = λ h. inl h;
    failure = λ h. inl h;
    compensation = λ h. inl h;
  }

  -- a new outcome is marked with no event
  pub Fits-new_result :
      (b : Events) (fingerprint : String) (result : ExecutionResult)
      → Fits t q b none (new_result fingerprint result)
  unfolding outcome_valid
  Fits-new_result b fingerprint result = record {
    valid = λ h. refl;
    grows = tt;
    success = λ h. inl h;
    failure = λ h. inl h;
    compensation = λ h. inl h;
  }

  pub Fits-new_failure :
      (b : Events) (fingerprint code kind provider_id : String)
      → Fits t q b none (new_failure fingerprint code kind provider_id)
  unfolding outcome_valid
  Fits-new_failure b fingerprint code kind provider_id = record {
    valid = λ h. refl;
    grows = tt;
    success = λ h. inl h;
    failure = λ h. inl h;
    compensation = λ h. inl h;
  }

  -- marking an outcome with an event that is recorded
  pub Fits-success :
      (b : Events) (old : Option ExecutionOutcome) (o : ExecutionOutcome) (captured : Bool)
      → (o.captured ≡ true → captured ≡ true)
      → outcome_valid (record o { captured = captured; success_event_enqueued = true }) ≡ true
      → Fits t q b old o
      → Recorded t q b "provider.execution.succeeded"
      → Fits t q b old (record o { captured = captured; success_event_enqueued = true })
  Fits-success b old o captured h valid f r = record {
    valid = λ _. valid;
    grows =
        GrowsFrom-trans old o (record o { captured = captured; success_event_enqueued = true })
          f.grows (ground arith);
    success = λ _. inr r;
    failure = f.failure;
    compensation = f.compensation;
  }

  pub Fits-failure :
      (b : Events) (old : Option ExecutionOutcome) (o : ExecutionOutcome)
      → outcome_valid (record o { failure_event_enqueued = true }) ≡ true
      → Fits t q b old o
      → Recorded t q b "provider.execution.failed"
      → Fits t q b old (record o { failure_event_enqueued = true })
  Fits-failure b old o valid f r = record {
    valid = λ _. valid;
    grows =
        GrowsFrom-trans old o (record o { failure_event_enqueued = true }) f.grows (ground arith);
    success = f.success;
    failure = λ _. inr r;
    compensation = f.compensation;
  }

  pub Fits-compensation :
      (b : Events) (old : Option ExecutionOutcome) (o : ExecutionOutcome) (failed : Bool)
      → (o.compensation_failed ≡ true → failed ≡ true)
      → outcome_valid
          (record o { compensation_failed = failed; compensation_failure_event_enqueued = true })
        ≡ true
      → Fits t q b old o
      → Recorded t q b "billing.reservation-compensation-failed"
      → Fits t q b old
          (record o { compensation_failed = failed; compensation_failure_event_enqueued = true })
  Fits-compensation b old o failed h valid f r = record {
    valid = λ _. valid;
    grows =
        GrowsFrom-trans old o
          (record o { compensation_failed = failed; compensation_failure_event_enqueued = true })
          f.grows (ground arith);
    success = f.success;
    failure = f.failure;
    compensation = λ _. inr r;
  }

abbrev pub Fit :
    ⦃env : Env⦄
    → SecureExecutionRequest
    → Option ExecutionOutcome
    → ExecutionOutcome
    → Events
    → Type 0
Fit request old o b = Fits request.tenant_id request.request_id b old o

module _ ⦃env : Env⦄ {S : Type 0} {w₀ : State S} (request : SecureExecutionRequest) where
  open request use {tenant_id, request_id}

  -- an event is recorded, and the outcome that is marked with it fits
  pub Does-mark :
      (event_type provider_id : String) (reason : Option String) (old : Option ExecutionOutcome)
      (o p : ExecutionOutcome)
      → ((b : Events)
          → outcome_valid p ≡ true
          → Fit request old o b
          → Recorded tenant_id request_id b event_type
          → Fit request old p b)
      → Does w₀
          (Fit request old o)
          (enqueue_event event_type request provider_id reason >> construct (outcome_valid p) p)
          (λ c b. Fit request old c b)
  Does-mark event_type provider_id reason old o p h =
      Does-bind _ (enqueue_event event_type request provider_id reason) _
        (Does-enqueue_event event_type request provider_id reason
          (λ b c k f. Fits-mono tenant_id request_id b c old o k f))
        (λ _. Does-constructed (outcome_valid p) p (λ valid b (f, r). h b valid f r))

  -- the same, and it is put in the place of the old one
  pub Does-mark_put :
      (event_type provider_id : String) (reason : Option String) (old : Option ExecutionOutcome)
      (o p : ExecutionOutcome)
      → ((b : Events)
          → outcome_valid p ≡ true
          → Fit request old o b
          → Recorded tenant_id request_id b event_type
          → Fit request old p b)
      → Does w₀
          (Fit request old o)
          (enqueue_event event_type request provider_id reason
            >> (construct (outcome_valid p) p >>= λ updated. put_changed request updated old))
          (λ _. Any)
  Does-mark_put event_type provider_id reason old o p h =
      Does-bind _ (enqueue_event event_type request provider_id reason) _
        (Does-enqueue_event event_type request provider_id reason
          (λ b c k f. Fits-mono tenant_id request_id b c old o k f))
        (λ _. Does-construct (outcome_valid p) p _ (λ valid.
          Does-pre _ (put_changed request p old) (λ b (f, r). h b valid f r)
            (Does-put_changed request p old)))
