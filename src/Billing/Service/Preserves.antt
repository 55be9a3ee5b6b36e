-- ===== src/Billing/Service/Preserves.antt =====
-- What every write of the repositories preserves, every operation of the service preserves.
pub mod Calls
use uwo_shared_platform.Prelude.{
  String, ◌≡◌, refl, Bool, true, false, Option, none, some, arith, inl, inr, Option-cases,
  Bool-cases, subst, sym, ◌&&◌, if◌then◌else◌,
}
use uwo_shared_platform.Prelude.Int.{ℤ}
use uwo_shared_platform.Prelude.Dict.{get}
use uwo_shared_platform.Errors.{Error, Result, ok, err, Result-cases}
use uwo_shared_platform.Env.{Env}
use uwo_shared_platform.Contracts.Domain.{VerifiedSubjectIdentity}
use uwo_shared_platform.Contracts.Billing.{
  BillingAccount, CreditReservation, LedgerEntry, UsageEvent,
}
use uwo_shared_platform.Contracts.Checks.{reservation_valid}
use uwo_shared_platform.Billing.World.{
  World, Db, BillingAuditEvent, IdempotencyRecord, IdempotencyResult, IdempotencyScope,
}
use uwo_shared_platform.Billing.Accounts
use uwo_shared_platform.Billing.Idempotency
use uwo_shared_platform.Billing.Idempotency.{find}
use uwo_shared_platform.Billing.Ledger.Append
use uwo_shared_platform.Billing.Reservations
use uwo_shared_platform.Billing.Usage
use uwo_shared_platform.Billing.UnitOfWork.{transaction}
use uwo_shared_platform.Billing.Action
use uwo_shared_platform.Billing.Action.{Act, construct, or_raise, emit, read_clock, ◌>>=◌, ◌>>◌}
use uwo_shared_platform.Billing.Service.Common.{
  Attempt, replayed, fresh, handle_integrity, is_integrity, handle_insufficient, is_insufficient,
  guarded, or_replay, unless_replayed, early_replay, emit_rollback, or_payment_required,
  start_mutation, make_scope, account_of, active_account, finish, replay,
}

db-early_replay :
    {A : Type 0} (pick : IdempotencyResult → Option A) (s : IdempotencyScope) (key print : String)
    (w : World)
    → (early_replay pick s key print w).1.db ≡ w.db
unfolding early_replay transaction ◌>>=◌
db-early_replay pick s key print w = elim (Option-cases (find w.db s key)) [
  | inl missing ↦ ground arith
  | inr (r, found) ↦ elim (Result-cases (replay pick r print)) [
    | inl (a, done) ↦ ground arith
    | inr (x, raised) ↦ ground arith
  ]
]

module _ (P : Db → Type 0) where
  pub record Preserves {A : Type 0} (m : Act A) : Type 0 where
    pub at : (w : World) → P w.db → P (m w).1.db

  -- the writes of the repositories, with what the operations have tested before them
  pub record Stable ⦃env : Env⦄ : Type 0 where
    pub account_create : (a : BillingAccount) → Preserves (Accounts.create a)
    pub reservation_create :
        (r : CreditReservation) → reservation_valid r ≡ true → Preserves (Reservations.create r)
    pub reservation_update :
        (r : CreditReservation) (v : ℤ)
        → reservation_valid r ≡ true
        → Preserves (Reservations.update r v)
    pub usage_append : (u : UsageEvent) → Preserves (Usage.append u)
    pub ledger_append : (e : LedgerEntry) (v : ℤ) → Preserves (Append.append e v)
    pub record_put : (r : IdempotencyRecord) → Preserves (Idempotency.put r)

  module _ {A : Type 0} where
    pub Preserves-read : (f : World → Result A) → Preserves (λ w. (f w, w))
    Preserves-read f = record { at = λ w p. p }

    pub Preserves-or_raise : (o : Option A) (x : Error) → Preserves (or_raise o x)
    Preserves-or_raise none x = record { at = λ w p. p }
    Preserves-or_raise (some a) x = record { at = λ w p. p }

    pub Preserves-if :
        (b : Bool) (m n : Act A) → Preserves m → Preserves n → Preserves (if b then m else n)
    Preserves-if true m n km kn = km
    Preserves-if false m n km kn = kn

  pub Preserves-start : Preserves start_mutation
  Preserves-start = record { at = λ w p. p }

  pub Preserves-emit : ⦃env : Env⦄ (e : BillingAuditEvent) → Preserves (emit e)
  Preserves-emit e = record { at = λ w p. p }

  pub Preserves-read_clock : ⦃env : Env⦄ → Preserves read_clock
  Preserves-read_clock = record { at = λ w p. p }

  module _ {A B : Type 0} where
    continue-P :
        (r : Result A) (w : World) (f : A → Act B)
        → P w.db
        → ((a : A) → Preserves (f a))
        → P (Action.continue r f w).1.db
    continue-P (ok a) w f p k = (k a).at w p
    continue-P (err x) w f p k = p

    pub Preserves-bind :
        (m : Act A) (f : A → Act B)
        → Preserves m
        → ((a : A) → Preserves (f a))
        → Preserves (m >>= f)
    unfolding ◌>>=◌
    Preserves-bind m f km kf = record { at = λ w p. continue-P (m w).0 (m w).1 f (km.at w p) kf }

    -- behind a construction its tests have passed
    pub Preserves-construct :
        (valid : Bool) (a : A) (f : A → Act B)
        → (valid ≡ true → Preserves (f a))
        → Preserves (construct valid a >>= f)
    unfolding ◌>>=◌
    Preserves-construct true a f k = record { at = λ w p. (k refl).at w p }
    Preserves-construct false a f k = record { at = λ w p. p }

  restored :
      (b : Bool) (w w' : World)
      → P w.db
      → P w'.db
      → P (if b then record w' { db = w.db } else w').db
  restored true w w' p p' = p
  restored false w w' p p' = p'

  module _ ⦃env : Env⦄ {A : Type 0} where
    handled :
        (request_id : String) (i : VerifiedSubjectIdentity) (t : String) (r : Result A) (w : World)
        → P w.db
        → P (handle_integrity request_id i t r w).1.db
    unfolding ◌>>=◌ emit_rollback
    handled request_id i t (ok a) w p = p
    handled request_id i t (err e) w p = elim (Bool-cases (is_integrity e && w.mutation_started)) [
      | inl b ↦ rw b p
      | inr b ↦ rw b p
    ]

    refused :
        (denial : BillingAuditEvent) (r : Result A) (w : World)
        → P w.db
        → P (handle_insufficient denial r w).1.db
    unfolding ◌>>=◌
    refused denial (ok a) w p = p
    refused denial (err e) w p = elim (Bool-cases (is_insufficient e)) [
      | inl b ↦ rw b p
      | inr b ↦ rw b p
    ]

  looked_up :
      {R A : Type 0} (o : Option R) (n : Act A) (f : R → Act A) (w : World)
      → P w.db
      → Preserves n
      → ((r : R) → Preserves (f r))
      → P (elim o as (λ _. Result A × World) [ none ↦ n w | some r ↦ f r w ]).1.db
  looked_up none n f w p kn kf = kn.at w p
  looked_up (some r) n f w p kn kf = (kf r).at w p

  module _ {A : Type 0} where
    pub Preserves-transaction : (body : Act A) → Preserves body → Preserves (transaction body)
    unfolding transaction
    Preserves-transaction body k = record {
      at = λ w p. let w₀ = record w { committed = false } in restored _ w (body w₀).1 p (k.at w₀ p);
    }

    pub Preserves-guarded :
        ⦃env : Env⦄ (request_id : String) (i : VerifiedSubjectIdentity) (t : String) (body : Act A)
        → Preserves body
        → Preserves (guarded request_id i t body)
    unfolding guarded ◌>>=◌
    Preserves-guarded request_id i t body k = record {
      at = λ w p.
          let w₀ = record w { mutation_started = false } in
          handled request_id i t (transaction body w₀).0 (transaction body w₀).1
            ((Preserves-transaction body k).at w₀ p);
    }

    pub Preserves-or_replay :
        {B : Type 0} (pick : IdempotencyResult → Option B) (again : B → A) (s : IdempotencyScope)
        (key print : String) (m : Act A)
        → Preserves m
        → Preserves (or_replay pick again s key print m)
    unfolding or_replay find get ◌>>=◌
    Preserves-or_replay pick again s key print m k = record {
      at = λ w p.
          looked_up (find w.db s key) _ _ w p (Preserves-bind m _ k (λ a. record { at = λ v q. q }))
            (λ r.
              Preserves-bind _ _ (Preserves-read (λ _. replay pick r print))
                (λ b. record { at = λ v q. q }));
    }

    pub Preserves-paid :
        ⦃env : Env⦄ (denial : BillingAuditEvent) (m : Act A)
        → Preserves m
        → Preserves (or_payment_required denial m)
    unfolding or_payment_required ◌>>=◌
    Preserves-paid denial m k = record { at = λ w p. refused denial (m w).0 (m w).1 (k.at w p) }

  Preserves-early_replay :
      {A : Type 0} (pick : IdempotencyResult → Option A) (s : IdempotencyScope) (key print : String)
      → Preserves (early_replay pick s key print)
  Preserves-early_replay pick s key print = record {
    at = λ w p. subst P (sym (db-early_replay pick s key print w)) p;
  }

  module _ {A : Type 0} where
    pub Preserves-unless_replayed :
        {B : Type 0} (pick : IdempotencyResult → Option B) (again : B → A) (s : IdempotencyScope)
        (key print : String) (m : Act A)
        → Preserves m
        → Preserves (unless_replayed pick again s key print m)
    unfolding unless_replayed
    Preserves-unless_replayed {B} pick again s key print m k =
        Preserves-bind _ _ (Preserves-early_replay pick s key print) (λ found.
          elim found as (λ o. Preserves (elim o [ some b ↦ Action.return (again b) | none ↦ m ])) [
            | none ↦ k
            | some b ↦ record { at = λ w p. p }
          ])

    -- the audit event behind an attempt
    pub Preserves-finish :
        (f : A → Act (Unit {0})) (t : Attempt A)
        → ((a : A) → Preserves (f a))
        → Preserves (finish f t)
    Preserves-finish f (replayed a) k = record { at = λ w p. p }
    Preserves-finish f (fresh a) k =
        Preserves-bind (f a) (λ _. Action.return a) (k a) (λ _. record { at = λ w p. p })
