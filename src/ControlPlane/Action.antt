-- ===== src/ControlPlane/Action.antt =====
-- A method call of the control plane: it changes the world, and returns or raises. What was written
-- before a raise stays written, unless a unit of work puts it back.
use uwo_shared_platform.Prelude.{
  String, ◌+◌, Bool, true, false, not, ◌||◌, Option, none, some, ◌∷◌, if◌then◌else◌,
}
use uwo_shared_platform.Errors.{Code, Error, Result, ok, err, repository_integrity, make}
use uwo_shared_platform.Env.{Env}
use uwo_shared_platform.ControlPlane.World.{World, Db, FailurePoint, ControlPlaneAuditEvent}

abbrev pub Act : Type 0 → Type 0
Act A = World → Result A × World

module _ {A : Type 0} where
  abbrev pub return : A → Act A
  return a w = (ok a, w)

  abbrev pub raise : Error → Act A
  raise e w = (err e, w)

  -- a pure call that may raise
  abbrev pub lift : Result A → Act A
  lift r w = (r, w)

  abbrev pub gets : (World → A) → Act A
  gets f w = (ok (f w), w)

  -- a call that reads the world and may raise
  abbrev pub reads : (World → Result A) → Act A
  reads f w = (f w, w)

  -- the value, or the error that stands for `None`
  abbrev pub or_raise : Option A → Error → Act A
  or_raise none e w = (err e, w)
  or_raise (some a) e w = (ok a, w)

  -- a frozen dataclass: a ValueError unless its tests pass
  abbrev pub construct : Bool → A → Act A
  construct valid a w = (make valid a, w)

  -- `_contract`
  abbrev pub contract : Bool → A → Act A
  contract valid a w = (if valid then ok a else err (Error.invalid_request Code.invalid_request), w)

module _ {A B : Type 0} where
  abbrev pub continue : Result A → (A → Act B) → Act B
  continue (ok a) f w = f a w
  continue (err e) f w = (err e, w)

infixl 10 ◌>>=◌ ◌>>◌
-- Shut, so that rules about `m >>= f` can be matched; a proof that runs an action opens it.
unfoldable pub ◌>>=◌ : {A B : Type 0} → Act A → (A → Act B) → Act B
◌>>=◌ m f w = let (r, w') = m w in continue r f w'

abbrev pub ◌>>◌ : {B : Type 0} → Act (Unit {0}) → Act B → Act B
m >> k = m >>= λ _. k

-- `if b: raise e`
abbrev pub raise_when : Bool → Error → Act (Unit {0})
raise_when b e w = (if b then err e else ok tt, w)

abbrev pub write_db : (Db → Db) → Act (Unit {0})
write_db f w = (ok tt, record w { db = f w.db })

module _ ⦃env : Env⦄ where
  -- `self._clock()`
  abbrev pub read_clock : Act String
  read_clock w = (ok (env.clock w.ticks), record w { ticks = w.ticks + 1 })

  -- `self._audit.emit(audit_event(…))`, whose timestamp is `utc_now()`
  unfoldable pub emit : ControlPlaneAuditEvent → Act (Unit {0})
  emit e w = (
    ok tt,
    record w {
      audit = record e { timestamp = env.utc_now w.ticks } ∷ w.audit;
      ticks = w.ticks + 1;
    },
  )

abbrev pub same_point : FailurePoint → FailurePoint → Bool
same_point FailurePoint.tenant_write FailurePoint.tenant_write = true
same_point FailurePoint.entitlement_initialization FailurePoint.entitlement_initialization = true
same_point FailurePoint.policy_initialization FailurePoint.policy_initialization = true
same_point FailurePoint.idempotency_persistence FailurePoint.idempotency_persistence = true
same_point _ _ = false

abbrev pub armed : Option FailurePoint → FailurePoint → Bool
armed none p = false
armed (some q) p = same_point q p

-- `FailureInjector.trigger`
unfoldable pub trigger : FailurePoint → Act (Unit {0})
trigger p w =
    if armed w.failing p
    then (err repository_integrity, record w { failing = none })
    else (ok tt, w)

-- `commit`
abbrev pub commit : Act (Unit {0})
commit w = (ok tt, record w { committed = true })

-- `exc_type is not None`
abbrev pub is_raised {ℓ} : {A : Type ℓ} → Result A → Bool
is_raised (ok _) = false
is_raised (err _) = true

-- `__enter__`, the body, and `__exit__` of `InMemoryUnitOfWork`. The locks are held for the whole
-- body, so no other step stands between.
unfoldable pub transaction : {A : Type 0} → Act A → Act A
transaction body w =
    let (r, w') = body (record w { committed = false }) in
    (r, if is_raised r || not w'.committed then record w' { db = w.db } else w')
