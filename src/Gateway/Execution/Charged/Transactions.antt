-- ===== src/Gateway/Execution/Charged/Transactions.antt =====
-- What the transactions of the execution service have stored once they return.
use uwo_shared_platform.Prelude.{
  String, ◌≡◌, refl, true, not, Option, none, some, arith, inl, inr, Bool-cases, sym, ◌∙◌,
}
use uwo_shared_platform.Prelude.Keys.{string_eq, pair_eq, ◌==◌}
use uwo_shared_platform.Prelude.Dict.{get, get-set_self}
use uwo_shared_platform.Errors.{Result-cases}
use uwo_shared_platform.Env.{Env}
use uwo_shared_platform.DataServices.Outbox
use uwo_shared_platform.DataServices.Outbox.{OutboxRecord, record_valid}
use uwo_shared_platform.DataServices.Events.{PlatformEvent, event_eq}
use uwo_shared_platform.Gateway.Execution.Data.{
  ExecutionResult, ExecutionOutcome, SecureExecutionRequest, outcome_valid, result_eq, outcome_eq,
}
use uwo_shared_platform.Gateway.Execution.Action.{Operation, State, return, construct, ◌>>=◌, ◌>>◌}
use uwo_shared_platform.Gateway.Execution.Store
use uwo_shared_platform.Gateway.Execution.Store.{
  fail, put, put_changed, write_outcome, make_event, enqueue, enqueue_event,
}
use uwo_shared_platform.Gateway.Execution.Outcomes
use uwo_shared_platform.Gateway.Execution.Outcomes.{
  load_outcome, require_fingerprint, mark_captured, ensure_mandatory_events, or_default,
}
use uwo_shared_platform.Gateway.Execution.Gives.{
  Top, Aside, Aside-bind, Gives, Gives-Aside, Gives-bind, Gives-construct, Gives-constructed,
  Gives-fact, Gives-gets, Gives-if, Gives-or_raise, Gives-pre, Gives-raise_when, Gives-skip,
  Gives-transaction, Gives-weaken,
}

module _ ⦃env : Env⦄ {S : Type 0} where
  pub Aside-fail : (operation : Operation) → Aside {S = S} (fail operation)
  unfolding fail
  Aside-fail operation = record {
    leaves = λ w. elim (Bool-cases (Store.is_armed w.fail_next operation)) [
      | inl armed ↦ rw armed
      | inr quiet ↦ rw quiet
    ];
  }

  pub Aside-enqueue : (r : OutboxRecord PlatformEvent) → Aside {S = S} (enqueue r)
  unfolding enqueue
  Aside-enqueue r = record {
    leaves = λ w. elim (Result-cases (Outbox.enqueue env.is_alnum r w.outbox)) [
      | inl ((stored, outbox), done) ↦ rw done
      | inr (x, refused) ↦ rw refused
    ];
  }

  pub Aside-enqueue_new :
      (event : PlatformEvent) (found : Option (OutboxRecord PlatformEvent))
      → Aside {S = S} (Store.enqueue_new event found)
  Aside-enqueue_new event (some existing) = record { leaves = λ w. refl }
  Aside-enqueue_new event none =
      Aside-bind _ _ (record { leaves = λ w. refl })
        (λ r. Aside-bind _ _ (Aside-fail Operation.outbox) (λ _. Aside-enqueue r))

  pub Aside-enqueue_event :
      (event_type : String) (request : SecureExecutionRequest) (provider_id : String)
      (reason : Option String)
      → Aside {S = S} (enqueue_event event_type request provider_id reason)
  unfolding enqueue_event make_event
  Aside-enqueue_event event_type request provider_id reason =
      Aside-bind _ _ (record { leaves = λ w. refl })
        (λ event. Aside-bind _ _ (record { leaves = λ w. refl }) (Aside-enqueue_new event))

abbrev pub Stored : {S : Type 0} → SecureExecutionRequest → ExecutionOutcome → State S → Type 0
Stored request o w = get w.outcomes (request.tenant_id, request.request_id) ≡ some o

module _ {S : Type 0} where
  pub Gives-write :
      (P : State S → Type 0) (t q : String) (value : ExecutionOutcome)
      → Gives P
          (write_outcome t q value >> return value)
          (λ o w. (get w.outcomes (t, q) ≡ some value) × (o ≡ value))
  unfolding write_outcome ◌>>=◌
  Gives-write P t q value = record { at = λ w p. (get-set_self w.outcomes (t, q) value, refl) }

  pub Gives-put :
      (t q : String) (value : ExecutionOutcome) (old : Option ExecutionOutcome)
      → Gives {S = S} Top
          (put t q value old)
          (λ o w. (get w.outcomes (t, q) ≡ some value) × (o ≡ value))
  unfolding put
  Gives-put t q value old =
      Gives-skip (fail Operation.outcome) _
        (λ _. Gives-skip _ _ (λ current. Gives-raise_when _ _ _ (λ fresh. Gives-write _ t q value)))

  -- the outcome that is put, or was there, is stored
  pub Gives-put_changed :
      (request : SecureExecutionRequest) (updated existing : ExecutionOutcome)
      → Gives {S = S}
          (Stored request existing)
          (put_changed request updated (some existing))
          (λ o w. Stored request updated w × (o ≡ updated))
  unfolding put_changed
  Gives-put_changed request updated existing = elim (Bool-cases (some updated == some existing)) [
    | inl same ↦ record {
      at = λ w h.
          rw same (h ∙ sym ((outcome_eq.beq_iff (some updated) (some existing)).0 same), refl);
    }
    | inr changed ↦ rw changed (
        Gives-pre (Stored request existing) _ (λ w h. tt)
          (Gives-put request.tenant_id request.request_id updated (some existing)))
  ]

-- The result of the request is stored as captured, under the fingerprint.
pub record IsCharged {S : Type 0} (request : SecureExecutionRequest) (fingerprint : String)
    (result : ExecutionResult) (w : State S) : Type 0 where
  pub outcome : ExecutionOutcome
  pub stored : Stored request outcome w
  pub captured : outcome.captured ≡ true
  pub has_result : outcome.result ≡ some result
  pub same_input : outcome.fingerprint ≡ fingerprint

module _ {S : Type 0} where
  pub Gives-post :
      (request : SecureExecutionRequest) (fingerprint : String) (result : ExecutionResult)
      (existing : ExecutionOutcome)
      → existing.fingerprint ≡ fingerprint
      → existing.result ≡ some result
      → Gives {S = S}
          (Stored request existing)
          (put_changed request
            (record existing { captured = true; success_event_enqueued = true })
            (some existing))
          (λ _. IsCharged request fingerprint result)
  Gives-post request fingerprint result existing same_input same_result =
      Gives-weaken _
        (λ o w (at, e). record {
          outcome = record existing { captured = true; success_event_enqueued = true };
          stored = at;
          captured = refl;
          has_result = same_result;
          same_input = same_input;
        })
        (Gives-put_changed request _ existing)

module _ ⦃env : Env⦄ {S : Type 0} where
  pub Gives-mark_captured :
      (request : SecureExecutionRequest) (fingerprint : String) (result : ExecutionResult)
      → Gives {S = S} Top
          (mark_captured request fingerprint result)
          (λ _. IsCharged request fingerprint result)
  unfolding mark_captured require_fingerprint
  Gives-mark_captured request fingerprint result = Gives-transaction _ (
      Gives-gets _ _ (λ found. Gives-or_raise found _ _ (λ existing at.
        Gives-raise_when _ _ _ (λ same_input. Gives-raise_when _ _ _ (λ same_result.
          Gives-pre _ _ (λ w (p, h). h ∙ at)
            (Gives-bind _ _ _
              (Gives-Aside request.tenant_id request.request_id (some existing) _ (
                Aside-enqueue_event "provider.execution.succeeded" request result.provider_id none))
              (λ _. Gives-construct _ _ _ (
                Gives-post request fingerprint result existing
                  (ground (arith, string_eq.beq_iff existing.fingerprint fingerprint))
                  (ground (arith, result_eq.beq_iff existing.result (some result)))))))))))

  abbrev pub SameInput :
      SecureExecutionRequest → ExecutionOutcome → String → ExecutionOutcome → State S → Type 0
  SameInput request current fingerprint o w =
      Stored request current w × (o.fingerprint ≡ fingerprint)

  -- an outcome is marked while the old one is stored
  pub Gives-mark :
      (request : SecureExecutionRequest) (event_type provider_id : String) (reason : Option String)
      (current o p : ExecutionOutcome)
      → p.fingerprint ≡ o.fingerprint
      → Gives
          (Stored request current)
          (enqueue_event event_type request provider_id reason >> construct (outcome_valid p) p)
          (SameInput request current o.fingerprint)
  Gives-mark request event_type provider_id reason current o p same =
      Gives-bind _ _ _
        (Gives-Aside request.tenant_id request.request_id (some current) _
          (Aside-enqueue_event event_type request provider_id reason))
        (λ _. Gives-constructed _ p (λ w h. (h, same)))

  pub Gives-ensure_success :
      (request : SecureExecutionRequest) (provider_id : String) (current o : ExecutionOutcome)
      → Gives
          (Stored request current)
          (Outcomes.ensure_success request provider_id o)
          (SameInput request current o.fingerprint)
  Gives-ensure_success request provider_id current o =
      Gives-if (not o.captured) _ _ (record { at = λ w h. (h, refl) })
        (Gives-mark request "provider.execution.succeeded" provider_id none current o _ refl)

  pub Gives-ensure_failure :
      (request : SecureExecutionRequest) (provider_id : String) (code : Option String)
      (current o : ExecutionOutcome)
      → Gives
          (Stored request current)
          (Outcomes.ensure_failure request provider_id code o)
          (SameInput request current o.fingerprint)
  Gives-ensure_failure request provider_id none current o = record { at = λ w h. (h, refl) }
  Gives-ensure_failure request provider_id (some code) current o =
      Gives-mark request "provider.execution.failed" provider_id (some code) current o _ refl

  pub Gives-ensure_compensation :
      (request : SecureExecutionRequest) (provider_id : String) (current o : ExecutionOutcome)
      → Gives
          (Stored request current)
          (Outcomes.ensure_compensation request provider_id o)
          (SameInput request current o.fingerprint)
  Gives-ensure_compensation request provider_id current o =
      Gives-if (not o.compensation_failed) _ _ (record { at = λ w h. (h, refl) })
        (Gives-mark request "billing.reservation-compensation-failed" provider_id _ current o _
          refl)

  -- `_ensure_mandatory_events` returns the outcome that is stored
  pub Gives-ensure_mandatory_events :
      (request : SecureExecutionRequest) (fingerprint : String)
      → Gives {S = S} Top
          (ensure_mandatory_events request fingerprint)
          (λ o w. Stored request o w × (o.fingerprint ≡ fingerprint))
  unfolding ensure_mandatory_events require_fingerprint
  Gives-ensure_mandatory_events request fingerprint = Gives-transaction _ (
      Gives-gets _ _ (λ found. Gives-or_raise found _ _ (λ current at.
        let provider_id =
          or_default current.provider_id (Outcomes.result_provider current.result) in
        Gives-raise_when _ _ _ (λ same.
          Gives-pre _ _ (λ w (p, h). h ∙ at)
            (Gives-bind _ _ _ (Gives-ensure_success request provider_id current current) (λ one.
              Gives-fact _ (λ a.
                Gives-bind _ _ _
                  (Gives-ensure_failure request provider_id current.failure_code current one)
                  (λ two. Gives-fact _ (λ b.
                    Gives-bind _ _ _ (Gives-ensure_compensation request provider_id current two)
                      (λ updated. Gives-fact _ (λ c.
                        Gives-weaken _
                          (λ o w (at, e). (
                            rw e at,
                            ground (arith, string_eq.beq_iff current.fingerprint fingerprint),
                          ))
                          (Gives-put_changed request updated current))))))))))))
