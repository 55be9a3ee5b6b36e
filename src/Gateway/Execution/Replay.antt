-- ===== src/Gateway/Execution/Replay.antt =====
-- `SecureExecutionService.execute` on a request whose result is stored as captured.
use uwo_shared_platform.Prelude.{
  String, ℕ, ◌+◌, ◌≡◌, refl, true, false, Option, none, some, arith, sym, subst, ◌∙◌,
}
use uwo_shared_platform.Prelude.Keys.{string_eq, pair_eq}
use uwo_shared_platform.Prelude.Dict.{get}
use uwo_shared_platform.Env.{Env}
use uwo_shared_platform.DataServices.Outbox.{OutboxRecord}
use uwo_shared_platform.DataServices.Events.{
  record_id_of, PlatformEvent, event_valid, platform_event,
}
use uwo_shared_platform.Gateway.Execution.Data.{
  VerifiedIdentity, ExecutionResult, ExecutionOutcome, SecureExecutionRequest,
  SecureExecutionResult, returned, Collaborators, outcome_valid, outcome_eq,
}
use uwo_shared_platform.Gateway.Execution.Action.{State, Act, construct, transaction, ◌>>=◌, ◌>>◌}
use uwo_shared_platform.Gateway.Execution.Store
use uwo_shared_platform.Gateway.Execution.Store.{
  put_changed, make_event, enqueue_event, attributes_of,
}
use uwo_shared_platform.Gateway.Execution.Outcomes
use uwo_shared_platform.Gateway.Execution.Outcomes.{
  load_outcome, require_fingerprint, ensure_mandatory_events, or_default,
}
use uwo_shared_platform.Gateway.Execution.Service
use uwo_shared_platform.Gateway.Execution.Service.{public_result, fingerprint_of, execute}

-- A step that returns is run, and the rest goes on from its state.
>>=-returned :
    {S A B : Type 0} (m : Act S A) (f : A → Act S B) (w : State S) {a : A} {w' : State S}
    → m w ≡ (returned a, w')
    → (m >>= f) w ≡ f a w'
unfolding ◌>>=◌
>>=-returned m f w h = rw h

transaction-returned :
    {S A : Type 0} (body : Act S A) (w : State S) {a : A} {w' : State S}
    → body w ≡ (returned a, w')
    → transaction body w ≡ (returned a, w')
unfolding transaction
transaction-returned body w h = rw h

module _ ⦃env : Env⦄ where
  abbrev pub event_at : SecureExecutionRequest → String → String → Option String → ℕ → PlatformEvent
  event_at request event_type provider_id reason n =
      platform_event event_type request.tenant_id request.request_id
        (attributes_of request provider_id reason) (env.utc_now n)

-- the event of the request is recorded already, and can be made again
pub record IsRecorded ⦃env : Env⦄ {S : Type 0} (w : State S) (event : PlatformEvent) : Type 0 where
  pub entry : OutboxRecord PlatformEvent
  pub found : get w.outbox (record_id_of event.event_id) ≡ some entry
  pub same_id : entry.event.event_id ≡ event.event_id
  pub same_type : entry.event.event_type ≡ event.event_type
  pub valid : event_valid event ≡ true

module _ ⦃env : Env⦄ {S : Type 0} (request : SecureExecutionRequest)
    (event_type provider_id : String) (reason : Option String) (w : State S)
    (i : IsRecorded w (event_at request event_type provider_id reason w.ticks)) where
  make_event_again : make_event event_type request provider_id reason w ≡ (
    returned (event_at request event_type provider_id reason w.ticks),
    record w { ticks = w.ticks + 1 },
  )
  unfolding make_event
  make_event_again = rw i.valid

  enqueue_new_again :
      (v : State S)
      → Store.enqueue_new (event_at request event_type provider_id reason w.ticks) (some i.entry) v
        ≡ (returned tt, v)
  enqueue_new_again v =
      let event = event_at request event_type provider_id reason w.ticks in
      ground (
        arith,
        string_eq.beq_iff i.entry.event.event_id event.event_id,
        string_eq.beq_iff i.entry.event.event_type event.event_type,
        i.same_id,
        i.same_type,
      )

  enqueue_event_again :
      enqueue_event event_type request provider_id reason w
      ≡ (returned tt, record w { ticks = w.ticks + 1 })
  unfolding enqueue_event
  enqueue_event_again =
      >>=-returned _ _ w make_event_again
      ∙ (>>=-returned _ _ _ {a = some i.entry} {w' = record w { ticks = w.ticks + 1 }} (rw i.found)
          ∙ enqueue_new_again _)

module _ ⦃env : Env⦄ {S Reservation : Type 0} (k : Collaborators S Reservation)
    (identity : VerifiedIdentity) (request : SecureExecutionRequest) (w : State S) (s : S)
    (o : ExecutionOutcome) (result : ExecutionResult)
    (stored : get w.outcomes (request.tenant_id, request.request_id) ≡ some o)
    (is_captured : o.captured ≡ true) (has_result : o.result ≡ some result)
    (same_input : o.fingerprint ≡ fingerprint_of request identity.subject)
    (settled : o.compensation_failed ≡ false) (valid : outcome_valid o ≡ true)
    (i : IsRecorded w (
      event_at request "provider.execution.succeeded"
        (or_default o.provider_id (Outcomes.result_provider o.result))
        none
        w.ticks)) where
  loads : load_outcome request.tenant_id request.request_id w ≡ (returned (some o), w)
  unfolding load_outcome transaction
  loads = rw stored

  marked_again : record o { success_event_enqueued = true } ≡ o
  unfolding outcome_valid
  marked_again = ground arith

  no_failure : o.failure_code ≡ none
  unfolding outcome_valid
  no_failure = ground arith

  abbrev later : State S
  later = record w { ticks = w.ticks + 1 }

  abbrev provider_id : String
  provider_id = or_default o.provider_id (Outcomes.result_provider o.result)

  accepts :
      (v : State S)
      → require_fingerprint o (fingerprint_of request identity.subject) v ≡ (returned tt, v)
  unfolding require_fingerprint
  accepts v =
      ground (arith, string_eq.beq_iff o.fingerprint (fingerprint_of request identity.subject))

  abbrev mark_success : Act S ExecutionOutcome
  mark_success =
      enqueue_event "provider.execution.succeeded" request provider_id none
      >> construct (outcome_valid (record o { success_event_enqueued = true }))
          (record o { success_event_enqueued = true })

  marks_success : mark_success w ≡ (returned o, later)
  marks_success =
      >>=-returned _ _ w {w' = later}
        (enqueue_event_again request "provider.execution.succeeded" provider_id none w i)
      ∙ subst (λ p. construct (outcome_valid p) p later ≡ (returned o, later)) (sym marked_again)
          (rw valid)

  ensures_success : Outcomes.ensure_success request provider_id o w ≡ (returned o, later)
  ensures_success = ground (arith, marks_success)

  ensures_failure :
      Outcomes.ensure_failure request provider_id o.failure_code o later ≡ (returned o, later)
  ensures_failure =
      subst (λ c. Outcomes.ensure_failure request provider_id c o later ≡ (returned o, later))
        (sym no_failure) refl

  ensures_compensation :
      Outcomes.ensure_compensation request provider_id o later ≡ (returned o, later)
  ensures_compensation = ground arith

  puts : put_changed request o (some o) later ≡ (returned o, later)
  unfolding put_changed
  puts = ground (arith, outcome_eq.beq_iff (some o) (some o))

  ensures :
      ensure_mandatory_events request (fingerprint_of request identity.subject) w
      ≡ (returned o, later)
  unfolding ensure_mandatory_events
  ensures = transaction-returned _ w (
      >>=-returned _ _ w {a = some o} {w' = w} (rw stored)
      ∙ (>>=-returned _ _ w {a = o} {w' = w} refl
          ∙ (>>=-returned _ _ w (accepts w)
              ∙ (>>=-returned _ _ w ensures_success
                  ∙ (>>=-returned _ _ later ensures_failure
                      ∙ (>>=-returned _ _ later ensures_compensation ∙ puts))))))

  resumes :
      Service.resume k request (fingerprint_of request identity.subject) (some o) w
      ≡ (returned (some o), later)
  resumes = >>=-returned _ _ w (accepts w) ∙ >>=-returned _ _ w ensures

  answers :
      (rest : Act S SecureExecutionResult) (v : State S)
      → Service.or_continue k request (some o) rest v ≡ (returned (public_result request result), v)
  answers rest v = ground arith

-- A request whose outcome is stored as captured, with its result, under the fingerprint of this
-- input, valid, with no failed compensation, and with its success event already recorded in the
-- outbox, is answered from the store once its caller is authorized again: no collaborator but the
-- entitlements is called, no audit event is emitted, and neither an outcome nor the outbox changes.
pub execute-replay :
    ⦃env : Env⦄ {S Reservation : Type 0} (k : Collaborators S Reservation)
    (identity : VerifiedIdentity) (request : SecureExecutionRequest) (w : State S) {s : S}
    {o : ExecutionOutcome} {result : ExecutionResult}
    → get w.outcomes (request.tenant_id, request.request_id) ≡ some o
    → o.captured ≡ true
    → o.result ≡ some result
    → o.fingerprint ≡ fingerprint_of request identity.subject
    → o.compensation_failed ≡ false
    → outcome_valid o ≡ true
    → IsRecorded w (
        event_at request "provider.execution.succeeded"
          (or_default o.provider_id (Outcomes.result_provider o.result))
          none
          w.ticks)
    → k.authorize identity request.tenant_id request.product request.model w.outside
      ≡ (returned tt, s)
    → execute k identity request w
      ≡ (returned (public_result request result), record w { ticks = w.ticks + 1; outside = s })
unfolding execute
execute-replay k identity request w {s} {o} {result} stored captured has same settled valid i
      allowed =
    let v = record w { outside = s } in
    let j : IsRecorded v (
        event_at request "provider.execution.succeeded"
          (or_default o.provider_id (Outcomes.result_provider o.result)) none w.ticks) =
      record {
        entry = i.entry;
        found = i.found;
        same_id = i.same_id;
        same_type = i.same_type;
        valid = i.valid;
      } in
    >>=-returned _ _ w {w' = v} (rw allowed)
    ∙ (>>=-returned _ _ v
          (loads k identity request v s o result stored captured has same settled valid j)
        ∙ (>>=-returned _ _ v
              (resumes k identity request v s o result stored captured has same settled valid j)
            ∙ answers k identity request v s o result stored captured has same settled valid j _ _))
