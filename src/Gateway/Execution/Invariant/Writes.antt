-- ===== src/Gateway/Execution/Invariant/Writes.antt =====
-- What the writes of the outcome store do to its invariant: `_enqueue_event` and `put`.
use uwo_shared_platform.Prelude.{
  String, ◌≡◌, refl, not, ◌||◌, Option, none, some, arith, inl, inr, Bool-cases,
}
use uwo_shared_platform.Prelude.Keys.{string_eq, pair_eq, ◌==◌}
use uwo_shared_platform.Prelude.Dict.{get, set, get-set_self, get-set_kept}
use uwo_shared_platform.Env.{Env}
use uwo_shared_platform.DataServices.Outbox
use uwo_shared_platform.DataServices.Outbox.{OutboxRecord, record_valid}
use uwo_shared_platform.DataServices.Events.{
  record_id_of, pending_record, PlatformEvent, event_eq, event_id_of, event_valid, platform_event,
}
use uwo_shared_platform.Gateway.Execution.Data.{
  ExecutionOutcome, SecureExecutionRequest, returned, outcome_eq,
}
use uwo_shared_platform.Gateway.Execution.Action.{Operation, State, ◌>>=◌}
use uwo_shared_platform.Gateway.Execution.Store
use uwo_shared_platform.Gateway.Execution.Store.{
  fail, put, put_changed, write_outcome, make_event, enqueue, enqueue_event, attributes_of,
}
use uwo_shared_platform.Gateway.Execution.Invariant.{
  Events, IsKept, Recorded, Fits, Good-write, Good-enqueue,
}
use uwo_shared_platform.Gateway.Execution.Invariant.Rules.{
  Does, Good-store, Does-construct, Does-bind, Does-gets_outbox, Does-if, Does-return,
}

abbrev pub IsMono : (Events → Type 0) → Type 0
IsMono P = (b c : Events) → IsKept b c → P b → P c

module _ ⦃env : Env⦄ {S : Type 0} {w₀ : State S} {P : Events → Type 0} where
  pub Does-fail : (operation : Operation) → Does w₀ P (fail operation) (λ _. P)
  unfolding fail
  Does-fail operation = record {
    at = λ w g p. elim (Bool-cases (Store.is_armed w.fail_next operation)) [
      | inl armed ↦ rw armed (Good-store w _ refl refl g)
      | inr quiet ↦ rw quiet (g, p)
    ];
  }

enqueue-fresh :
    ⦃env : Env⦄ {S : Type 0} (r : OutboxRecord PlatformEvent) (w : State S)
    → get w.outbox r.record_id ≡ none
    → enqueue r w ≡ (returned tt, record w { outbox = set w.outbox r.record_id r })
unfolding enqueue Outbox.enqueue
enqueue-fresh r w new = ground arith

module _ ⦃env : Env⦄ (event_type : String) (request : SecureExecutionRequest) (provider_id : String)
    (reason_code : Option String) where
  abbrev event_id : String
  event_id =
      event_id_of event_type request.tenant_id request.request_id
        (attributes_of request provider_id reason_code)

  abbrev Made : PlatformEvent → Type 0
  Made event = (event.event_id ≡ event_id) × (event.event_type ≡ event_type)

module _ ⦃env : Env⦄ {S : Type 0} {w₀ : State S} {P : Events → Type 0} (event_type : String)
    (request : SecureExecutionRequest) (provider_id : String) (reason_code : Option String) where
  Does-make_event :
      Does w₀ P
        (make_event event_type request provider_id reason_code)
        (λ event o. P o × Made event_type request provider_id reason_code event)
  unfolding make_event platform_event
  Does-make_event = record {
    at = λ w g p.
        let event =
          platform_event event_type request.tenant_id request.request_id
            (attributes_of request provider_id reason_code) (env.utc_now w.ticks) in
        elim (Bool-cases (event_valid event)) [
          | inl fine ↦ rw fine (Good-store w _ refl refl g, (p, (refl, refl)))
          | inr bad ↦ rw bad (Good-store w _ refl refl g)
        ];
  }

  Does-enqueue_old :
      (event : PlatformEvent) (existing : OutboxRecord PlatformEvent)
      → Made event_type request provider_id reason_code event
      → Does w₀
          (λ o. P o × (get o (record_id_of event.event_id) ≡ some existing))
          (Store.enqueue_new event (some existing))
          (λ _ o. P o × Recorded request.tenant_id request.request_id o event_type)
  Does-enqueue_old event existing (id, type) = record {
    at = λ w g (p, found).
        elim (Bool-cases (
          not (existing.event.event_id == event.event_id)
          || not (existing.event.event_type == event.event_type))) [
            | inl bad ↦ rw bad g
            | inr fine ↦ rw fine (
              g,
              (
                p,
                (
                  attributes_of request provider_id reason_code,
                  existing,
                  rw (← id) found,
                  ground (arith, string_eq.beq_iff existing.event.event_id event.event_id),
                  ground (arith, string_eq.beq_iff existing.event.event_type event.event_type),
                ),
              ),
            )
          ];
  }

  Does-enqueue_new :
      (event : PlatformEvent)
      → Made event_type request provider_id reason_code event
      → IsMono P
      → Does w₀
          (λ o. P o × (get o (record_id_of event.event_id) ≡ none))
          (Store.enqueue_new event none)
          (λ _ o. P o × Recorded request.tenant_id request.request_id o event_type)
  Does-enqueue_new event (id, type) mono =
      Does-construct (record_valid env.is_alnum (pending_record event)) (pending_record event) _
        (λ valid. Does-bind _ (fail Operation.outbox) _ (Does-fail Operation.outbox) (λ _. record {
          at = λ w g (p, new).
              let r = pending_record event in
              rw (enqueue-fresh r w new) (
                Good-enqueue w₀ w g r.record_id r new,
                (
                  mono w.outbox _ (λ j s found. get-set_kept w.outbox r.record_id j r new found) p,
                  (
                    attributes_of request provider_id reason_code,
                    r,
                    rw (← id) (get-set_self w.outbox r.record_id r),
                    id,
                    type,
                  ),
                ),
              );
        }))

  Does-enqueue_found :
      (event : PlatformEvent)
      → IsMono P
      → (found : Option (OutboxRecord PlatformEvent))
      → Does w₀
          (λ o.
            (P o × Made event_type request provider_id reason_code event)
            × (get o (record_id_of event.event_id) ≡ found))
          (Store.enqueue_new event found)
          (λ _ o. P o × Recorded request.tenant_id request.request_id o event_type)
  Does-enqueue_found event mono none = record {
    at = λ w g ((p, made), found). (Does-enqueue_new event made mono).at w g (p, found);
  }
  Does-enqueue_found event mono (some existing) = record {
    at = λ w g ((p, made), found). (Does-enqueue_old event existing made).at w g (p, found);
  }

  pub Does-enqueue_event :
      IsMono P
      → Does w₀ P
          (enqueue_event event_type request provider_id reason_code)
          (λ _ o. P o × Recorded request.tenant_id request.request_id o event_type)
  unfolding enqueue_event
  Does-enqueue_event mono =
      Does-bind _ (make_event event_type request provider_id reason_code) _ Does-make_event
        (λ event.
          Does-bind _ _ _ (Does-gets_outbox (λ o. get o (record_id_of event.event_id)))
            (Does-enqueue_found event mono))

module _ ⦃env : Env⦄ {S : Type 0} {w₀ : State S} (t q : String) (value : ExecutionOutcome)
    (old : Option ExecutionOutcome) where
  pub Does-put : Does w₀ (λ o. Fits t q o old value) (put t q value old) (λ _ _. Unit)
  unfolding put write_outcome ◌>>=◌
  Does-put = Does-bind _ (fail Operation.outcome) _ (Does-fail Operation.outcome) (λ _. record {
    at = λ w g fits. elim (Bool-cases (not (get w.outcomes (t, q) == old))) [
      | inl stale ↦ rw stale g
      | inr current ↦ rw current (
        Good-write w₀ w g t q value old
            (ground (arith, outcome_eq.beq_iff (get w.outcomes (t, q)) old)) fits,
        tt,
      )
    ];
  })

module _ ⦃env : Env⦄ {S : Type 0} {w₀ : State S} (request : SecureExecutionRequest)
    (value : ExecutionOutcome) (old : Option ExecutionOutcome) where
  pub Does-put_changed :
      Does w₀
        (λ o. Fits request.tenant_id request.request_id o old value)
        (put_changed request value old)
        (λ _ _. Unit)
  unfolding put_changed
  Does-put_changed =
      Does-if (some value == old) _ _ (λ same. Does-return value (λ o fits. tt))
        (λ changed. Does-put request.tenant_id request.request_id value old)
