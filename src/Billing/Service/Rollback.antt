-- ===== src/Billing/Service/Rollback.antt =====
-- Each operation of the service under the rules of `Atomic`.
use uwo_shared_platform.Prelude.{String, ◌≡◌, refl, Bool, true, false, Option, arith, inl, inr}
use uwo_shared_platform.Prelude.Int.{ℤ}
use uwo_shared_platform.Errors.{Error, err, Result-cases}
use uwo_shared_platform.Env.{Env}
use uwo_shared_platform.Contracts.Domain.{VerifiedSubjectIdentity}
use uwo_shared_platform.Contracts.Billing.{CreditReservation, LedgerEntryType}
use uwo_shared_platform.Billing.World.{
  World, BillingAuditEvent, IdempotencyResult, IdempotencyScope,
}
use uwo_shared_platform.Billing.UnitOfWork.{transaction}
use uwo_shared_platform.Billing.Action.{Act, ◌>>=◌, read_clock, emit}
use uwo_shared_platform.Billing.Service.Common.{
  Attempt, replayed, fresh, guarded, unless_replayed, or_payment_required, account_of,
  active_account, make_scope, finish,
}
use uwo_shared_platform.Billing.Service.Accounts.{create_account}
use uwo_shared_platform.Billing.Service.Credits.{
  credit_new, credit_mutation, grant_credits, adjust_credits, refund,
}
use uwo_shared_platform.Billing.Service.Reserve.{ReservationRequest, reserve, reserve_new}
use uwo_shared_platform.Billing.Service.Capture.{
  UsageReport, capture, capture_new, authorize_capture,
}
use uwo_shared_platform.Billing.Service.Release.{release, release_new}
use uwo_shared_platform.Billing.Service.GatewayReserve.{reserve_for_gateway}
use uwo_shared_platform.Billing.Service.GatewayCapture.{capture_for_gateway}
use uwo_shared_platform.Billing.Service.GatewayRelease.{release_for_gateway}
use uwo_shared_platform.Billing.Service.Call.{Call, drop_result, perform}
use uwo_shared_platform.Billing.Service.Atomic.{Keeps, RollsBack, RollsBack-bind, keeps_rules}

Keeps-make_scope : (op t : String) (i : VerifiedSubjectIdentity) → Keeps (make_scope op t i)
unfolding make_scope
Keeps-make_scope op t i = search keeps_rules

Keeps-account_of : (t : String) → Keeps (account_of t)
unfolding account_of
Keeps-account_of t = search keeps_rules

Keeps-active_account : (t : String) → Keeps (active_account t)
unfolding active_account
Keeps-active_account t = search (keeps_rules, Keeps-account_of) depth 8

module _ ⦃env : Env⦄ where
  RollsBack-guarded {ℓ} :
      {A : Type ℓ} (request_id : String) (i : VerifiedSubjectIdentity) (t : String) (body : Act A)
      → RollsBack (guarded request_id i t body)
  unfolding guarded transaction ◌>>=◌
  RollsBack-guarded request_id i t body = record { at = λ w e h. ground arith }

  RollsBack-paid {ℓ} :
      {A : Type ℓ} (denial : BillingAuditEvent) (body : Act A)
      → RollsBack body
      → RollsBack (or_payment_required denial body)
  unfolding or_payment_required ◌>>=◌
  RollsBack-paid denial body k = record {
    at = λ w e h. elim (Result-cases (body w).0) [
      | inl (a, done) ↦ absurd (ground arith)
      | inr (x, raised) ↦ ground (arith, k.at w x)
    ];
  }

  Keeps-read_clock : Keeps read_clock
  Keeps-read_clock = record { at = λ w. refl }

  -- the audit event behind an attempt cannot raise
  RollsBack-finish {ℓ} :
      {A : Type ℓ} (attempt : Act (Attempt A)) (f : A → BillingAuditEvent)
      → RollsBack attempt
      → RollsBack (attempt >>= finish (λ a. emit (f a)))
  unfolding ◌>>=◌
  RollsBack-finish attempt f k = record {
    at = λ w e h. elim (Result-cases (attempt w).0) [
      | inl (replayed a, done) ↦ absurd (ground arith)
      | inl (fresh a, done) ↦ absurd (ground arith)
      | inr (x, raised) ↦ ground (arith, k.at w e)
    ];
  }

  RollsBack-unless_replayed {ℓ κ} :
      {A : Type ℓ} {B : Type κ} (pick : IdempotencyResult → Option B) (again : B → A)
      (s : IdempotencyScope) (key print : String) (rest : Act A)
      → RollsBack rest
      → RollsBack (unless_replayed pick again s key print rest)
  unfolding unless_replayed transaction ◌>>=◌
  RollsBack-unless_replayed pick again s key print rest k = record {
    at = λ w e h. grind (arith, k.at);
  }

  ruleset rollback_rules = (
    keeps_rules, Keeps-account_of, Keeps-active_account, Keeps-make_scope, Keeps-read_clock,
    RollsBack-bind, RollsBack-guarded, RollsBack-finish, RollsBack-paid, RollsBack-unless_replayed,
  )

  RollsBack-create_account :
      (i : VerifiedSubjectIdentity) (t : String) (key request_id : String) (v : ℤ)
      → RollsBack (create_account i t key request_id v)
  unfolding create_account
  RollsBack-create_account i t key request_id v = search (rollback_rules) depth 16

  RollsBack-credit_new :
      (i : VerifiedSubjectIdentity) (t : String) (delta v : ℤ) (key request_id op : String)
      (ty : LedgerEntryType) (s : IdempotencyScope) (print : String)
      → RollsBack (credit_new i t delta v key request_id op ty s print)
  unfolding credit_new
  RollsBack-credit_new i t delta v key request_id op ty s print = search (rollback_rules) depth 16

  RollsBack-credit_mutation :
      (i : VerifiedSubjectIdentity) (t : String) (delta v : ℤ) (key request_id op : String)
      (ty : LedgerEntryType)
      → RollsBack (credit_mutation i t delta v key request_id op ty)
  unfolding credit_mutation
  RollsBack-credit_mutation i t delta v key request_id op ty =
      search (rollback_rules, RollsBack-credit_new) depth 16

  RollsBack-grant_credits :
      (i : VerifiedSubjectIdentity) (t : String) (amount v : ℤ) (key request_id : String)
      → RollsBack (grant_credits i t amount v key request_id)
  unfolding grant_credits
  RollsBack-grant_credits i t amount v key request_id =
      search (rollback_rules, RollsBack-credit_mutation) depth 16

  RollsBack-adjust_credits :
      (i : VerifiedSubjectIdentity) (t : String) (amount v : ℤ) (key request_id : String)
      → RollsBack (adjust_credits i t amount v key request_id)
  unfolding adjust_credits
  RollsBack-adjust_credits i t amount v key request_id =
      search (rollback_rules, RollsBack-credit_mutation) depth 16

  RollsBack-refund :
      (i : VerifiedSubjectIdentity) (t : String) (amount v : ℤ) (key request_id : String)
      → RollsBack (refund i t amount v key request_id)
  unfolding refund
  RollsBack-refund i t amount v key request_id =
      search (rollback_rules, RollsBack-credit_mutation) depth 16

  RollsBack-reserve_new :
      (i : VerifiedSubjectIdentity) (t : String) (q : ReservationRequest) (expires : String) (v : ℤ)
      (key : String) (s : IdempotencyScope) (print : String)
      → RollsBack (reserve_new i t q expires v key s print)
  unfolding reserve_new
  RollsBack-reserve_new i t q expires v key s print = search (rollback_rules) depth 16

  RollsBack-reserve :
      (i : VerifiedSubjectIdentity) (t : String) (q : ReservationRequest) (expires : String) (v : ℤ)
      (key : String)
      → RollsBack (reserve i t q expires v key)
  unfolding reserve
  RollsBack-reserve i t q expires v key = search (rollback_rules, RollsBack-reserve_new) depth 16

  RollsBack-capture_new :
      (i : VerifiedSubjectIdentity) (id : String) (r : CreditReservation) (u : UsageReport)
      (rv bv : ℤ) (key request_id : String) (override : Bool) (s : IdempotencyScope)
      (print : String)
      → RollsBack (capture_new i id r u rv bv key request_id override s print)
  unfolding capture_new
  RollsBack-capture_new i id r u rv bv key request_id override s print =
      search (rollback_rules) depth 16

  Keeps-authorize_capture :
      (i : VerifiedSubjectIdentity) (t : String) (override : Bool)
      → Keeps (authorize_capture i t override)
  Keeps-authorize_capture i t true = search keeps_rules
  Keeps-authorize_capture i t false = search keeps_rules

  RollsBack-capture :
      (i : VerifiedSubjectIdentity) (id : String) (u : UsageReport) (rv bv : ℤ)
      (key request_id : String) (override : Bool)
      → RollsBack (capture i id u rv bv key request_id override)
  unfolding capture
  RollsBack-capture i id u rv bv key request_id override =
      search (rollback_rules, RollsBack-capture_new, Keeps-authorize_capture) depth 16

  RollsBack-release_new :
      (i : VerifiedSubjectIdentity) (id : String) (r : CreditReservation) (rv bv : ℤ)
      (key request_id : String) (s : IdempotencyScope) (print : String)
      → RollsBack (release_new i id r rv bv key request_id s print)
  unfolding release_new
  RollsBack-release_new i id r rv bv key request_id s print = search (rollback_rules) depth 16

  RollsBack-release :
      (i : VerifiedSubjectIdentity) (id : String) (rv bv : ℤ) (key request_id : String)
      → RollsBack (release i id rv bv key request_id)
  unfolding release
  RollsBack-release i id rv bv key request_id =
      search (rollback_rules, RollsBack-release_new) depth 16

  RollsBack-reserve_for_gateway :
      (i : VerifiedSubjectIdentity) (t : String) (q : ReservationRequest) (seconds : ℤ)
      (key : String)
      → RollsBack (reserve_for_gateway i t q seconds key)
  unfolding reserve_for_gateway
  RollsBack-reserve_for_gateway i t q seconds key = search (rollback_rules) depth 16

  RollsBack-capture_for_gateway :
      (i : VerifiedSubjectIdentity) (t : String) (id : String) (u : UsageReport)
      (key request_id : String)
      → RollsBack (capture_for_gateway i t id u key request_id)
  unfolding capture_for_gateway
  RollsBack-capture_for_gateway i t id u key request_id = search (rollback_rules) depth 16

  RollsBack-release_for_gateway :
      (i : VerifiedSubjectIdentity) (t : String) (id key request_id : String)
      → RollsBack (release_for_gateway i t id key request_id)
  unfolding release_for_gateway
  RollsBack-release_for_gateway i t id key request_id = search (rollback_rules) depth 16

  -- dropping the result
  RollsBack-drop_result {ℓ} : {A : Type ℓ} (m : Act A) → RollsBack m → RollsBack (drop_result m)
  unfolding ◌>>=◌
  RollsBack-drop_result m k = record {
    at = λ w e h. elim (Result-cases (m w).0) [
      | inl (a, done) ↦ absurd (ground arith)
      | inr (x, raised) ↦ ground (arith, k.at w x)
    ];
  }

  RollsBack-perform : (i : VerifiedSubjectIdentity) (c : Call) → RollsBack (perform i c)
  unfolding perform
  RollsBack-perform i (Call.create_account t key request_id v) =
      RollsBack-drop_result _ (RollsBack-create_account i t key request_id v)
  RollsBack-perform i (Call.grant_credits t n v key request_id) =
      RollsBack-drop_result _ (RollsBack-grant_credits i t n v key request_id)
  RollsBack-perform i (Call.adjust_credits t n v key request_id) =
      RollsBack-drop_result _ (RollsBack-adjust_credits i t n v key request_id)
  RollsBack-perform i (Call.refund t n v key request_id) =
      RollsBack-drop_result _ (RollsBack-refund i t n v key request_id)
  RollsBack-perform i (Call.reserve t q expires_at v key) =
      RollsBack-drop_result _ (RollsBack-reserve i t q expires_at v key)
  RollsBack-perform i (Call.capture id u rv bv key request_id override) =
      RollsBack-drop_result _ (RollsBack-capture i id u rv bv key request_id override)
  RollsBack-perform i (Call.release id rv bv key request_id) =
      RollsBack-drop_result _ (RollsBack-release i id rv bv key request_id)
  RollsBack-perform i (Call.reserve_for_gateway t q seconds key) =
      RollsBack-drop_result _ (RollsBack-reserve_for_gateway i t q seconds key)
  RollsBack-perform i (Call.capture_for_gateway t id u key request_id) =
      RollsBack-drop_result _ (RollsBack-capture_for_gateway i t id u key request_id)
  RollsBack-perform i (Call.release_for_gateway t id key request_id) =
      RollsBack-drop_result _ (RollsBack-release_for_gateway i t id key request_id)

  -- A call of an operation that runs under a unit of work (a constructor of `Call`, which has none for
  -- `set_account_status`) that raises, whatever the error, leaves the repositories as they were
  -- before it.
  pub perform-rollback :
      (i : VerifiedSubjectIdentity) (c : Call) (w : World) {e : Error}
      → (perform i c w).0 ≡ err e
      → (perform i c w).1.db ≡ w.db
  perform-rollback i c w {e} h = (RollsBack-perform i c).at w e h
