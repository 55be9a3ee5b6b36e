-- ===== src/Gateway/Execution/Invariant/Transactions.antt =====
-- Every transaction of the execution service keeps the invariant of the outcome store.
use uwo_shared_platform.Prelude.{String, refl, true, not, Option, none, some}
use uwo_shared_platform.Prelude.Keys.{string_eq}
use uwo_shared_platform.Env.{Env}
use uwo_shared_platform.Gateway.Execution.Data.{
  ExecutionResult, ExecutionOutcome, SecureExecutionRequest, Failure, result_eq,
}
use uwo_shared_platform.Gateway.Execution.Action.{State}
use uwo_shared_platform.Gateway.Execution.Outcomes
use uwo_shared_platform.Gateway.Execution.Outcomes.{
  load_outcome, require_fingerprint, remember_provider_result, remember_failure, mark_captured,
  mark_compensation_failure, ensure_mandatory_events, new_result, new_failure, or_default,
}
use uwo_shared_platform.Gateway.Execution.Invariant.Rules.{
  Any, Keeps, Does, Does-construct, Does-bind, Does-gets, Does-if, Does-return, Does-or_raise,
  Does-raise_when, Does-transaction, Does-pre, Does-constructed,
}
use uwo_shared_platform.Gateway.Execution.Invariant.Writes.{Does-put, Does-put_changed}
use uwo_shared_platform.Gateway.Execution.Invariant.Marks.{
  Fit, Fits-self, Fits-new_result, Fits-new_failure, Fits-success, Fits-failure, Fits-compensation,
  Does-mark, Does-mark_put,
}

module _ ⦃env : Env⦄ {S : Type 0} {w₀ : State S} where
  pub Does-load_outcome : (t q : String) → Keeps w₀ (load_outcome t q)
  unfolding load_outcome
  Does-load_outcome t q = Does-transaction _ (record { at = λ w g p. (g, tt) })

module _ ⦃env : Env⦄ {S : Type 0} {w₀ : State S} (request : SecureExecutionRequest) where
  Does-remember_new :
      (fingerprint : String) (result : ExecutionResult) (old : Option ExecutionOutcome)
      → Keeps w₀ (Outcomes.remember_new request fingerprint result old)
  unfolding require_fingerprint
  Does-remember_new fingerprint result (some existing) =
      Does-raise_when _ _ _ (λ _. Does-raise_when _ _ _ (λ _. Does-return existing (λ b _. tt)))
  Does-remember_new fingerprint result none =
      Does-construct _ (new_result fingerprint result) _ (λ _.
        Does-pre Any _
          (λ b _. Fits-new_result request.tenant_id request.request_id b fingerprint result)
          (Does-put request.tenant_id request.request_id (new_result fingerprint result) none))

  pub Does-remember_provider_result :
      (fingerprint : String) (result : ExecutionResult)
      → Keeps w₀ (remember_provider_result request fingerprint result)
  unfolding remember_provider_result
  Does-remember_provider_result fingerprint result =
      Does-transaction _ (Does-gets _ _ (Does-remember_new fingerprint result))

  Does-failure_outcome :
      (fingerprint code kind provider_id : String) (old : Option ExecutionOutcome)
      → Does w₀ Any
          (Outcomes.failure_outcome fingerprint code kind provider_id old)
          (λ o b. Fit request old o b)
  unfolding require_fingerprint
  Does-failure_outcome fingerprint code kind provider_id (some existing) =
      Does-raise_when _ _ _ (λ _. Does-raise_when _ _ _ (λ _.
        Does-return existing (λ b _. Fits-self request.tenant_id request.request_id b existing)))
  Does-failure_outcome fingerprint code kind provider_id none =
      Does-constructed _ (new_failure fingerprint code kind provider_id) (λ _ b _.
        Fits-new_failure request.tenant_id request.request_id b fingerprint code kind provider_id)

  pub Does-remember_failure :
      (fingerprint provider_id : String) (error : Failure)
      → Keeps w₀ (remember_failure request fingerprint provider_id error)
  unfolding remember_failure
  Does-remember_failure fingerprint provider_id error = Does-transaction _ (
      Does-gets _ _ (λ existing.
        Does-bind _ _ _
          (Does-failure_outcome fingerprint _ (Outcomes.failure_kind error) provider_id existing)
          (λ value.
            Does-mark_put request "provider.execution.failed" provider_id _ existing value
              (record value { failure_event_enqueued = true })
              (λ b valid f r.
                Fits-failure request.tenant_id request.request_id b existing value valid f r))))

  pub Does-mark_captured :
      (fingerprint : String) (result : ExecutionResult)
      → Keeps w₀ (mark_captured request fingerprint result)
  unfolding mark_captured require_fingerprint
  Does-mark_captured fingerprint result = Does-transaction _ (
      Does-gets _ _ (λ found. Does-or_raise found _ _ (λ existing at. Does-raise_when _ _ _ (λ _.
        Does-raise_when _ _ _ (λ _.
          Does-pre Any _ (λ b _. Fits-self request.tenant_id request.request_id b existing)
            (Does-mark_put request "provider.execution.succeeded" result.provider_id none
              (some existing) existing
              (record existing { captured = true; success_event_enqueued = true })
              (λ b valid f r.
                Fits-success request.tenant_id request.request_id b (some existing) existing true
                  (λ _. refl) valid f r)))))))

  pub Does-mark_compensation_failure :
      (fingerprint : String) → Keeps w₀ (mark_compensation_failure request fingerprint)
  unfolding mark_compensation_failure require_fingerprint
  Does-mark_compensation_failure fingerprint = Does-transaction _ (
      Does-gets _ _ (λ found. Does-or_raise found _ _ (λ existing at. Does-raise_when _ _ _ (λ _.
        Does-pre Any _ (λ b _. Fits-self request.tenant_id request.request_id b existing)
          (Does-mark_put request "billing.reservation-compensation-failed" _ _ (some existing)
            existing
            (record existing {
              compensation_failed = true;
              compensation_failure_event_enqueued = true;
            })
            (λ b valid f r.
              Fits-compensation request.tenant_id request.request_id b (some existing) existing true
                (λ _. refl) valid f r))))))

  Does-ensure_success :
      (provider_id : String) (old : Option ExecutionOutcome) (o : ExecutionOutcome)
      → Does w₀
          (Fit request old o)
          (Outcomes.ensure_success request provider_id o)
          (λ p b. Fit request old p b)
  Does-ensure_success provider_id old o =
      Does-if (not o.captured) _ _ (λ _. Does-return o (λ b f. f))
        (λ _.
          Does-mark request "provider.execution.succeeded" provider_id none old o
            (record o { success_event_enqueued = true })
            (λ b valid f r.
              Fits-success request.tenant_id request.request_id b old o o.captured (λ h. h) valid f
                r))

  Does-ensure_failure :
      (provider_id : String) (code : Option String) (old : Option ExecutionOutcome)
      (o : ExecutionOutcome)
      → Does w₀
          (Fit request old o)
          (Outcomes.ensure_failure request provider_id code o)
          (λ p b. Fit request old p b)
  Does-ensure_failure provider_id none old o = Does-return o (λ b f. f)
  Does-ensure_failure provider_id (some code) old o =
      Does-mark request "provider.execution.failed" provider_id (some code) old o
        (record o { failure_event_enqueued = true })
        (λ b valid f r. Fits-failure request.tenant_id request.request_id b old o valid f r)

  Does-ensure_compensation :
      (provider_id : String) (old : Option ExecutionOutcome) (o : ExecutionOutcome)
      → Does w₀
          (Fit request old o)
          (Outcomes.ensure_compensation request provider_id o)
          (λ p b. Fit request old p b)
  Does-ensure_compensation provider_id old o =
      Does-if (not o.compensation_failed) _ _ (λ _. Does-return o (λ b f. f))
        (λ _.
          Does-mark request "billing.reservation-compensation-failed" provider_id _ old o
            (record o { compensation_failure_event_enqueued = true })
            (λ b valid f r.
              Fits-compensation request.tenant_id request.request_id b old o o.compensation_failed
                (λ h. h) valid f r))

  pub Does-ensure_mandatory_events :
      (fingerprint : String) → Keeps w₀ (ensure_mandatory_events request fingerprint)
  unfolding ensure_mandatory_events require_fingerprint
  Does-ensure_mandatory_events fingerprint = Does-transaction _ (
      Does-gets _ _ (λ found. Does-or_raise found _ _ (λ current at.
        let provider_id =
          or_default current.provider_id (Outcomes.result_provider current.result) in
        Does-raise_when _ _ _ (λ _.
          Does-pre Any _ (λ b _. Fits-self request.tenant_id request.request_id b current)
            (Does-bind _ _ _ (Does-ensure_success provider_id (some current) current) (λ one.
              Does-bind _ _ _
                (Does-ensure_failure provider_id current.failure_code (some current) one)
                (λ two.
                  Does-bind _ _ _ (Does-ensure_compensation provider_id (some current) two)
                    (λ updated. Does-put_changed request updated (some current)))))))))
