-- ===== src/Billing/Action.antt =====
-- A method call: it changes the world, and returns or raises. What was written before a raise
-- stays written, so the world comes back beside the error too.
use uwo_shared_platform.Prelude.{
  String, ◌+◌, Bool, true, false, Option, none, some, ◌∷◌, if◌then◌else◌,
}
use uwo_shared_platform.Errors.{Error, Result, ok, err, repository_integrity, make}
use uwo_shared_platform.Env.{Env}
use uwo_shared_platform.Billing.World.{World, Db, FailurePoint, BillingAuditEvent}

abbrev pub Act {ℓ} : Type ℓ → Type ℓ
Act A = World → Result A × World

module _ {ℓ} {A : Type ℓ} where
  abbrev pub return : A → Act A
  return a w = (ok a, w)

  abbrev pub raise : Error → Act A
  raise e w = (err e, w)

  -- a pure call that may raise
  abbrev pub lift : Result A → Act A
  lift r w = (r, w)

  abbrev pub gets : (World → A) → Act A
  gets f w = (ok (f w), w)

  -- the value, or the error that stands for `None`
  abbrev pub or_raise : Option A → Error → Act A
  or_raise none e w = (err e, w)
  or_raise (some a) e w = (ok a, w)

  -- a frozen dataclass: a ValueError unless its tests pass
  abbrev pub construct : Bool → A → Act A
  construct valid a w = (make valid a, w)

module _ {ℓ κ} {A : Type ℓ} {B : Type κ} where
  abbrev pub continue : Result A → (A → World → Result B × World) → World → Result B × World
  continue (ok a) f w = f a w
  continue (err e) f w = (err e, w)

infixl 10 ◌>>=◌ ◌>>◌
-- Shut, so that rules about `m >>= f` can be matched; a proof that runs an action opens it.
unfoldable pub ◌>>=◌ {ℓ κ} : {A : Type ℓ} {B : Type κ} → Act A → (A → Act B) → Act B
◌>>=◌ m f w = let (r, w') = m w in continue r f w'

abbrev pub ◌>>◌ {ℓ} : {B : Type ℓ} → Act (Unit {0}) → Act B → Act B
m >> k = m >>= λ _. k

-- `if b: raise e`
abbrev pub raise_when : Bool → Error → Act (Unit {0})
raise_when b e w = (if b then err e else ok tt, w)

abbrev pub modify : (World → World) → Act (Unit {0})
modify f w = (ok tt, f w)

module _ ⦃env : Env⦄ where
  -- `self._clock()`
  abbrev pub read_clock : Act String
  read_clock w = (ok (env.clock w.ticks), record w { ticks = w.ticks + 1 })

  -- `self._audit.emit(audit_event(…))`, whose timestamp is `utc_now()`
  abbrev pub emit : BillingAuditEvent → Act (Unit {0})
  emit e w = (
    ok tt,
    record w {
      audit = record e { timestamp = env.utc_now w.ticks } ∷ w.audit;
      ticks = w.ticks + 1;
    },
  )

abbrev pub write_db : (Db → Db) → Act (Unit {0})
write_db f w = (ok tt, record w { db = f w.db })

abbrev pub same_point : FailurePoint → FailurePoint → Bool
same_point FailurePoint.account_write FailurePoint.account_write = true
same_point FailurePoint.ledger_write FailurePoint.ledger_write = true
same_point FailurePoint.reservation_write FailurePoint.reservation_write = true
same_point FailurePoint.usage_write FailurePoint.usage_write = true
same_point FailurePoint.idempotency_write FailurePoint.idempotency_write = true
same_point _ _ = false

abbrev pub armed : Option FailurePoint → FailurePoint → Bool
armed none p = false
armed (some q) p = same_point q p

-- `FailureInjector.trigger`
unfoldable pub trigger : FailurePoint → Act (Unit {0})
trigger p w =
    if armed w.failing p
    then (err repository_integrity, record w { failing = none })
    else (ok tt, w)
