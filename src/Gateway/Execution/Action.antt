-- ===== src/Gateway/Execution/Action.antt =====
-- A call of services/ai_gateway/execution.py: it changes the state, and returns or raises.
use uwo_shared_platform.Prelude.{ℕ, String, Bool, Option, none, some, List, ◌∷◌, if◌then◌else◌}
use uwo_shared_platform.Prelude.Keys.{string_eq, pair_eq}
use uwo_shared_platform.Prelude.Dict.{Dict}
use uwo_shared_platform.DataServices.Outbox.{OutboxRecord}
use uwo_shared_platform.DataServices.Events.{PlatformEvent}
use uwo_shared_platform.Gateway.Execution.Data.{
  ExecutionOutcome, Failure, Returned, returned, raised, Call, AuditEvent,
}

-- what `fail_next` of the store can name
pub data Operation : Type 0 where
  outcome outbox : Operation

-- The state of `InMemoryExecutionOutcomeStore`, the audit sink, the readings of the clock, and what
-- the collaborators keep.
pub record State (S : Type 0) : Type 0 where
  pub outcomes : Dict (String × String) ExecutionOutcome
  pub outbox : Dict String (OutboxRecord PlatformEvent)
  pub fail_next : Option Operation
  pub audit : List AuditEvent
  pub ticks : ℕ
  pub outside : S

abbrev pub Act : Type 0 → Type 0 → Type 0
Act S A = State S → Returned A × State S

module _ {S A : Type 0} where
  abbrev pub return : A → Act S A
  return a w = (returned a, w)

  abbrev pub raise : Failure → Act S A
  raise e w = (raised e, w)

  abbrev pub gets : (State S → A) → Act S A
  gets f w = (returned (f w), w)

  -- the value, or the error that stands for `None`
  abbrev pub or_raise : Option A → Failure → Act S A
  or_raise none e w = (raised e, w)
  or_raise (some a) e w = (returned a, w)

  -- a frozen dataclass: a ValueError unless its tests pass
  abbrev pub construct : Bool → A → Act S A
  construct valid a w = (if valid then returned a else raised Failure.value_error, w)

  -- a call of a collaborator
  abbrev pub call : Call S A → Act S A
  call c w = let (r, s) = c w.outside in (r, record w { outside = s })

module _ {S A B : Type 0} where
  -- an exception skips the rest
  abbrev pub proceed : Returned A → (A → Act S B) → Act S B
  proceed (returned a) f w = f a w
  proceed (raised e) f w = (raised e, w)

infixl 10 ◌>>=◌ ◌>>◌
-- Shut, so that rules about `m >>= f` can be matched; a proof that runs an action opens it.
unfoldable pub ◌>>=◌ : {S A B : Type 0} → Act S A → (A → Act S B) → Act S B
◌>>=◌ m f w = let (r, w') = m w in proceed r f w'

abbrev pub ◌>>◌ : {S B : Type 0} → Act S (Unit {0}) → Act S B → Act S B
m >> k = m >>= λ _. k

module _ {S : Type 0} where
  -- `if b: raise e`
  abbrev pub raise_when : Bool → Failure → Act S (Unit {0})
  raise_when b e w = (if b then raised e else returned tt, w)

  abbrev pub modify : (State S → State S) → Act S (Unit {0})
  modify f w = (returned tt, f w)

  -- `self._audit.emit(…)`
  abbrev pub emit : AuditEvent → Act S (Unit {0})
  emit e = modify (λ w. record w { audit = e ∷ w.audit })

module _ {S A : Type 0} where
  abbrev pub settle : Returned A → State S → State S → Returned A × State S
  settle (returned a) before after = (returned a, after)
  settle (raised e) before after =
      (raised e, record after { outcomes = before.outcomes; outbox = before.outbox })

  -- `with self._outcome_uow() as tx:`, in which every way to return has committed. The lock is held
  -- for the whole body, and an exception puts the snapshot back.
  unfoldable pub transaction : Act S A → Act S A
  transaction body w = let (r, w') = body w in settle r w w'
