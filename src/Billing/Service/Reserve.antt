-- ===== src/Billing/Service/Reserve.antt =====
-- `authorize_estimated_charge` and `reserve`.
use Prim.Native.String.{◌++◌}
use uwo_shared_platform.Prelude.{
  String, Bool, true, false, Option, none, some, [], ◌∷◌, if◌then◌else◌,
}
use uwo_shared_platform.Prelude.Int.{ℤ, pos, ◌+ℤ◌, neg, ltb_ℤ}
use uwo_shared_platform.Errors.{Code, Result, ok, err, invalid_request, payment_required}
use uwo_shared_platform.Env.{Env, Json, iso_le}
use uwo_shared_platform.Contracts.Domain.{Product, product_value, VerifiedSubjectIdentity}
use uwo_shared_platform.Contracts.Billing.{
  BillingAccount, BillingDecision, CreditReservation, LedgerEntry, LedgerEntryType,
  ReservationStatus,
}
use uwo_shared_platform.Contracts.Checks.{decision_valid, entry_valid, reservation_valid}
use uwo_shared_platform.Billing.World.{
  AuditEventType, Outcome, ReservationMutationResult, IdempotencyResult, IdempotencyScope,
}
use uwo_shared_platform.Billing.Ledger.{balance}
use uwo_shared_platform.Billing.Ledger.Append.{append}
use uwo_shared_platform.Billing.Idempotency
use uwo_shared_platform.Billing.Reservations
use uwo_shared_platform.Billing.Authorizer.{require_executor}
use uwo_shared_platform.Billing.Service.Common.{
  check_key, check_positive, authorize, make_scope, active_account, start_mutation, event,
  or_replay, unless_replayed, guarded, fingerprint, make_id, finish, or_payment_required, denial,
}
use uwo_shared_platform.Billing.Action.{
  Act, return, raise, construct, modify, read_clock, emit, ◌>>=◌, ◌>>◌,
}

abbrev pub pick_reservation : IdempotencyResult → Option ReservationMutationResult
pick_reservation (IdempotencyResult.reservation_result r) = some r
pick_reservation _ = none

abbrev pub replayed_reservation : ReservationMutationResult → ReservationMutationResult
replayed_reservation r = record r { created = false }

-- what a caller asks to be reserved
pub record ReservationRequest : Type 0 where
  pub product : Product
  pub model : String
  pub request_id : String
  pub amount_microunits : ℤ

-- the test of the expiry, with its handlers: every failure to compare is an invalid expiry
abbrev pub expiry_error : Result Bool → Result (Unit {0})
expiry_error (ok true) = err (invalid_request Code.invalid_expiry)
expiry_error (ok false) = ok tt
expiry_error (err _) = err (invalid_request Code.invalid_expiry)

module _ ⦃env : Env⦄ where
  -- the reservation and the entry that `reserve` and `reserve_for_gateway` build
  unfoldable pub reservation_for :
      BillingAccount → String → ReservationRequest → String → String → CreditReservation
  reservation_for account tenant_id q timestamp expires_at = record {
    reservation_id = make_id "reservation" (tenant_id ++ ":" ++ q.request_id);
    account_id = account.account_id;
    tenant_id = tenant_id;
    product = q.product;
    model = q.model;
    request_id = q.request_id;
    estimated_microunits = q.amount_microunits;
    captured_microunits = pos 0;
    released_microunits = pos 0;
    status = ReservationStatus.active;
    created_at = timestamp;
    expires_at = expires_at;
    updated_at = timestamp;
    version = pos 1;
  }

  unfoldable pub reserve_entry : CreditReservation → VerifiedSubjectIdentity → ℤ → LedgerEntry
  reserve_entry r identity version = record {
    entry_id = make_id "ledger" ("reserve:" ++ r.reservation_id);
    account_id = r.account_id;
    tenant_id = r.tenant_id;
    entry_type = LedgerEntryType.usage_reservation;
    amount_microunits = r.estimated_microunits;
    available_delta_microunits = neg r.estimated_microunits;
    reserved_delta_microunits = r.estimated_microunits;
    reference_id = r.reservation_id;
    created_at = r.created_at;
    created_by = identity.subject;
    version = version;
  }

  -- the writes of a reservation under the transaction
  unfoldable pub reserve_mutation :
      IdempotencyScope
      → String
      → String
      → CreditReservation
      → LedgerEntry
      → ℤ
      → Act ReservationMutationResult
  reserve_mutation scope key print reservation entry expected_version = do
    start_mutation
    _ ← Reservations.create reservation
    balance ← append entry expected_version
    let result : ReservationMutationResult = record {
      reservation = reservation;
      balance = balance;
      ledger_entry = entry;
      created = true;
    }
    _ ← Idempotency.put (record {
      scope = scope;
      key = key;
      request_fingerprint = print;
      original_result = IdempotencyResult.reservation_result result;
    })
    return result

  module _ (identity : VerifiedSubjectIdentity) (tenant_id : String) where
    unfoldable pub authorize_estimated_charge : ℤ → String → Act BillingDecision
    authorize_estimated_charge amount request_id = do
      authorize (λ d. require_executor d identity tenant_id false)
      check_positive amount
      account ← active_account tenant_id
      now ← read_clock
      b ← (λ w. (balance w.db.accounts w.db.ledger account.account_id tenant_id now, w))
      if ltb_ℤ b.available_microunits amount
          then (do
            emit (denial request_id identity tenant_id (some account.account_id))
            modify (λ w. record w {
              balance_low_events = (tenant_id, request_id) ∷ w.balance_low_events;
            })
            raise (payment_required Code.insufficient_balance))
          else do
            decided ← read_clock
            let d : BillingDecision = record {
              decision_id = make_id "decision" request_id;
              tenant_id = tenant_id;
              approved = true;
              estimated_charge_microunits = amount;
              reason_code = "authorized";
              decided_at = decided;
            }
            construct (decision_valid d) d

    -- what comes behind the early replay
    unfoldable pub reserve_new :
        ReservationRequest
        → String
        → ℤ
        → String
        → IdempotencyScope
        → String
        → Act ReservationMutationResult
    unfolding reserve_mutation
    reserve_new q expires_at expected_version idempotency_key scope print = do
      account ← active_account tenant_id
      timestamp ← read_clock
      (λ w. (expiry_error (iso_le expires_at timestamp), w))
      let r = reservation_for account tenant_id q timestamp expires_at
      reservation ← construct (reservation_valid r) r
      let e = reserve_entry reservation identity (expected_version +ℤ pos 1)
      entry ← construct (entry_valid e) e
      attempt ←
          or_payment_required (denial q.request_id identity tenant_id (some account.account_id)) (
            guarded q.request_id identity tenant_id (
              or_replay pick_reservation replayed_reservation scope idempotency_key print
                (reserve_mutation scope idempotency_key print reservation entry expected_version)))
      finish
          (λ _.
            emit
              (record (event AuditEventType.reservation_created q.request_id Outcome.succeeded
                identity tenant_id) {
                  account_id = some account.account_id;
                  reservation_id = some reservation.reservation_id;
                  ledger_entry_id = some entry.entry_id;
                }))
          attempt

    unfoldable pub reserve :
        ReservationRequest → String → ℤ → String → Act ReservationMutationResult
    reserve q expires_at expected_version idempotency_key = do
      authorize (λ d. require_executor d identity tenant_id false)
      check_positive q.amount_microunits
      check_key idempotency_key
      scope ← make_scope "billing.reservation.create" tenant_id identity
      let print = fingerprint (
          ("tenant_id", Json.text tenant_id)
          ∷ ("product", Json.text (product_value q.product))
          ∷ ("model", Json.text q.model)
          ∷ ("request_id", Json.text q.request_id)
          ∷ ("amount", Json.number q.amount_microunits)
          ∷ ("expires_at", Json.text expires_at)
          ∷ ("expected_balance_version", Json.number expected_version)
          ∷ [])
      unless_replayed pick_reservation replayed_reservation scope idempotency_key print
          (reserve_new q expires_at expected_version idempotency_key scope print)
