-- ===== src/Billing/Service/Common.antt =====
-- What the operations of `PlatformBillingService` share: identifiers, fingerprints, replay,
-- the handlers around a transaction, and audit events.
use Prim.Native.String.{◌++◌}
use uwo_shared_platform.Prelude.{
  ℕ, zero, suc, ◌/◌, ◌%◌, String, Bool, true, false, not, ◌&&◌, Option, none, some, List, ltb,
  if◌then◌else◌,
}
use uwo_shared_platform.Prelude.Int.{ℤ, pos, negsuc, ltb_ℤ}
use uwo_shared_platform.Prelude.Keys.{string_eq, ◌==◌}
use uwo_shared_platform.Errors.{
  Code, Error, Result, ok, err, repository_integrity, conflict, invalid_request, resource_not_found,
  payment_required, make,
}
use uwo_shared_platform.Env.{Env, Json}
use uwo_shared_platform.Contracts.Text.{take_chars, is_key}
use uwo_shared_platform.Contracts.Billing.{BillingAccount, BillingAccountStatus}
use uwo_shared_platform.Contracts.Domain.{VerifiedSubjectIdentity}
use uwo_shared_platform.ControlPlane.{Directory}
use uwo_shared_platform.Billing.World.{
  AuditEventType, BillingAuditEvent, Outcome, IdempotencyRecord, IdempotencyResult,
  IdempotencyScope,
}
use uwo_shared_platform.Billing.Accounts
use uwo_shared_platform.Billing.Idempotency
use uwo_shared_platform.Billing.UnitOfWork.{transaction, commit}
use uwo_shared_platform.Billing.Action.{
  Act, return, raise, lift, gets, or_raise, raise_when, emit, ◌>>=◌, ◌>>◌,
}

-- one decimal digit
abbrev digit : ℕ → String
digit zero = "0"
digit (suc zero) = "1"
digit (suc (suc zero)) = "2"
digit (suc (suc (suc zero))) = "3"
digit (suc (suc (suc (suc zero)))) = "4"
digit (suc (suc (suc (suc (suc zero))))) = "5"
digit (suc (suc (suc (suc (suc (suc zero)))))) = "6"
digit (suc (suc (suc (suc (suc (suc (suc zero))))))) = "7"
digit (suc (suc (suc (suc (suc (suc (suc (suc zero)))))))) = "8"
digit _ = "9"

-- The digits of a number, a unit of fuel for each; n + 1 units are enough for n.
digits : ℕ → ℕ → String → String
digits zero n rest = rest
digits (suc f) n rest =
    let more = digits f (n / 10) (digit (n % 10) ++ rest) in
    if ltb n 10 then digit n ++ rest else more

-- `str(n)`
unfoldable pub str_int : ℤ → String
unfolding digits
str_int (pos n) = digits (suc n) n ""
str_int (negsuc n) = "-" ++ digits (suc (suc n)) (suc n) ""

-- An operation's result: returned early from an idempotency record, or made anew.
pub data Attempt {ℓ} (A : Type ℓ) : Type ℓ where
  replayed : A → Attempt A
  fresh : A → Attempt A

-- `_replay`: `pick` is the test of the result's class
unfoldable pub replay {ℓ} :
    {B : Type ℓ} → (IdempotencyResult → Option B) → IdempotencyRecord → String → Result B
replay pick r fingerprint =
    if not (r.request_fingerprint == fingerprint)
    then err (conflict Code.idempotency_conflict)
    else elim (pick r.original_result) [ none ↦ err repository_integrity | some b ↦ ok b ]

-- `_key` and `_positive`
abbrev pub check_key : String → Act (Unit {0})
check_key key = raise_when (not (is_key key)) (invalid_request Code.invalid_idempotency_key)

abbrev pub check_positive : ℤ → Act (Unit {0})
check_positive n = raise_when (ltb_ℤ n (pos 1)) (invalid_request Code.invalid_amount)

-- a test of the authorizer
abbrev pub authorize : (Directory → Result (Unit {0})) → Act (Unit {0})
authorize test w = (test w.directory, w)

-- `_scope`, with the test of `IdempotencyScope`
unfoldable pub make_scope : String → String → VerifiedSubjectIdentity → Act IdempotencyScope
make_scope operation tenant_id identity w = (
  make (not (operation == "") && not (tenant_id == "") && not (identity.subject == ""))
      (record { operation = operation; tenant_id = tenant_id; actor_subject = identity.subject }),
  w,
)

-- `_account`
unfoldable pub account_of : String → Act BillingAccount
account_of tenant_id = do
  found ← gets (λ w. Accounts.get_by_tenant w.db.accounts tenant_id)
  or_raise found (resource_not_found Code.unknown_billing_account)

abbrev pub is_closed : BillingAccountStatus → Bool
is_closed BillingAccountStatus.closed = true
is_closed _ = false

abbrev pub is_suspended : BillingAccountStatus → Bool
is_suspended BillingAccountStatus.suspended = true
is_suspended _ = false

-- the tests of `_active_account`
abbrev pub check_active : BillingAccount → Act (Unit {0})
check_active a = do
  raise_when (is_closed a.status) (conflict Code.billing_account_closed)
  raise_when (is_suspended a.status) (conflict Code.billing_account_suspended)

unfoldable pub active_account : String → Act BillingAccount
unfolding account_of
active_account tenant_id = do a ← account_of tenant_id; check_active a; return a

-- `mutation_started = True`
abbrev pub start_mutation : Act (Unit {0})
start_mutation w = (ok tt, record w { mutation_started = true })

-- an event with the fields that every call gives; the others are `None`
abbrev pub event :
    AuditEventType → String → Outcome → VerifiedSubjectIdentity → String → BillingAuditEvent
event type request_id outcome identity tenant_id = record {
  timestamp = "";
  event_type = type;
  request_id = request_id;
  outcome = outcome;
  actor_subject = some identity.subject;
  tenant_id = some tenant_id;
  account_id = none;
  reservation_id = none;
  usage_event_id = none;
  ledger_entry_id = none;
  reason_code = none;
}

abbrev pub is_integrity : Error → Bool
is_integrity repository_integrity = true
is_integrity _ = false

-- The body of an operation under its scope and key: the recorded result, or a new mutation.
module _ {ℓ κ} {A : Type ℓ} {B : Type κ} where
  unfoldable pub or_replay :
      (IdempotencyResult → Option B)
      → (B → A)
      → IdempotencyScope
      → String
      → String
      → Act A
      → Act (Attempt A)
  unfolding replay
  or_replay pick again scope key fingerprint mutation w = elim (Idempotency.find w.db scope key) [
    | none ↦ (do a ← mutation; commit; return (fresh a)) w
    | some r ↦ (do b ← lift (replay pick r fingerprint); commit; return (replayed (again b))) w
  ]

-- `_early_replay`
unfoldable pub early_replay {ℓ} :
    {B : Type ℓ}
    → (IdempotencyResult → Option B)
    → IdempotencyScope
    → String
    → String
    → Act (Option B)
unfolding replay
early_replay pick scope key fingerprint = transaction (λ w. elim (Idempotency.find w.db scope key) [
  | none ↦ (do commit; return none) w
  | some r ↦ (do b ← lift (replay pick r fingerprint); commit; return (some b)) w
])

-- `replay = self._early_replay(…); if replay is not None: return replace(replay, created=False)`,
-- and the rest of the operation
unfoldable pub unless_replayed {ℓ κ} :
    {A : Type ℓ} {B : Type κ}
    → (IdempotencyResult → Option B)
    → (B → A)
    → IdempotencyScope
    → String
    → String
    → Act A
    → Act A
unfolding early_replay
unless_replayed pick again scope key fingerprint rest = do
  found ← early_replay pick scope key fingerprint
  elim found [ some b ↦ return (again b) | none ↦ rest ]

module _ ⦃env : Env⦄ where
  -- `_fingerprint`
  unfoldable pub fingerprint : List (String × Json) → String
  fingerprint value = env.sha256_hex (env.json_dumps value)

  -- `_id`
  unfoldable pub make_id : String → String → String
  make_id prefix value = prefix ++ ":" ++ take_chars 32 (env.sha256_hex value)

  -- `_rollback`
  unfoldable pub emit_rollback : String → VerifiedSubjectIdentity → String → Act (Unit {0})
  emit_rollback request_id identity tenant_id =
      emit
        (record (event AuditEventType.transaction_rolled_back request_id Outcome.failed identity
          tenant_id) { reason_code = some "transaction_rolled_back" })

  module _ {ℓ} {A : Type ℓ} (request_id : String) (identity : VerifiedSubjectIdentity)
      (tenant_id : String) where
    -- `except RepositoryIntegrityError: if mutation_started: self._rollback(…); raise`
    abbrev pub handle_integrity : Result A → Act A
    handle_integrity (ok a) w = (ok a, w)
    handle_integrity (err e) w =
        if is_integrity e && w.mutation_started
        then (do emit_rollback request_id identity tenant_id; raise e) w
        else (err e, w)

    -- `mutation_started = False; try: with self._unit_of_work() as transaction: …`
    unfoldable pub guarded : Act A → Act A
    unfolding emit_rollback
    guarded body w =
        let (r, w') = transaction body (record w { mutation_started = false }) in
        handle_integrity r w'

  abbrev pub is_insufficient : Error → Bool
  is_insufficient (conflict Code.insufficient_balance) = true
  is_insufficient _ = false

  -- `except Conflict as exc: if exc.code == "insufficient_balance": …; raise`
  abbrev pub handle_insufficient {ℓ} : {A : Type ℓ} → BillingAuditEvent → Result A → Act A
  handle_insufficient denial (ok a) w = (ok a, w)
  handle_insufficient denial (err e) w =
      if is_insufficient e
      then (do emit denial; raise (payment_required Code.insufficient_balance)) w
      else (err e, w)

  -- the handler around a body that reserves
  unfoldable pub or_payment_required {ℓ} : {A : Type ℓ} → BillingAuditEvent → Act A → Act A
  or_payment_required denial body w =
      let (result, w') = body w in handle_insufficient denial result w'

  -- the event of a reservation that the balance does not cover
  abbrev pub denial : String → VerifiedSubjectIdentity → String → Option String → BillingAuditEvent
  denial request_id identity tenant_id account_id =
      record (event AuditEventType.insufficient_balance request_id Outcome.denied identity
        tenant_id) { account_id = account_id; reason_code = some "insufficient_balance" }

-- The event follows a new mutation, not a replay.
module _ {ℓ} {A : Type ℓ} where
  abbrev pub finish : (A → Act (Unit {0})) → Attempt A → Act A
  finish emit_event (replayed a) = return a
  finish emit_event (fresh a) = do emit_event a; return a
