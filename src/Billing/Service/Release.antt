-- ===== src/Billing/Service/Release.antt =====
-- `release`: the rest of a reservation goes back to the available credit.
use Prim.Native.String.{◌++◌}
use uwo_shared_platform.Prelude.{String, true, false, not, Option, none, some, [], ◌∷◌}
use uwo_shared_platform.Prelude.Int.{ℤ, pos, ◌+ℤ◌, neg}
use uwo_shared_platform.Errors.{Code, conflict, resource_not_found}
use uwo_shared_platform.Env.{Env, Json}
use uwo_shared_platform.Contracts.Domain.{VerifiedSubjectIdentity}
use uwo_shared_platform.Contracts.Billing.{
  BillingAccount, CreditReservation, LedgerEntry, LedgerEntryType, ReservationStatus,
}
use uwo_shared_platform.Contracts.Checks.{entry_valid, reservation_valid}
use uwo_shared_platform.Billing.World.{
  AuditEventType, Outcome, ReleaseMutationResult, IdempotencyResult, IdempotencyScope,
}
use uwo_shared_platform.Billing.Ledger.Append.{append}
use uwo_shared_platform.Billing.Idempotency
use uwo_shared_platform.Billing.Reservations
use uwo_shared_platform.Billing.Authorizer.{require_executor}
use uwo_shared_platform.Billing.Service.Common.{
  check_key, check_positive, authorize, make_scope, account_of, start_mutation, event, or_replay,
  unless_replayed, guarded, fingerprint, make_id, finish, str_int,
}
use uwo_shared_platform.Billing.Service.Capture.{is_open, remaining}
use uwo_shared_platform.Billing.Action.{
  Act, return, raise_when, or_raise, construct, read_clock, emit, ◌>>=◌, ◌>>◌,
}

abbrev pub pick_release : IdempotencyResult → Option ReleaseMutationResult
pick_release (IdempotencyResult.release_result r) = some r
pick_release _ = none

abbrev pub replayed_release : ReleaseMutationResult → ReleaseMutationResult
replayed_release r = record r { created = false }

-- the reservation behind a release
unfoldable pub released_reservation : CreditReservation → String → CreditReservation
unfolding remaining
released_reservation r timestamp = record r {
  released_microunits = r.released_microunits +ℤ remaining r;
  status = ReservationStatus.released;
  updated_at = timestamp;
  version = r.version +ℤ pos 1;
}

module _ ⦃env : Env⦄ where
  -- an entry that takes `amount` out of the reserved credit and makes it available
  unfoldable pub release_entry :
      String
      → BillingAccount
      → CreditReservation
      → String
      → ℤ
      → String
      → VerifiedSubjectIdentity
      → ℤ
      → LedgerEntry
  release_entry name account r reservation_id amount timestamp identity version = record {
    entry_id = make_id "ledger" name;
    account_id = account.account_id;
    tenant_id = r.tenant_id;
    entry_type = LedgerEntryType.reservation_release;
    amount_microunits = amount;
    available_delta_microunits = amount;
    reserved_delta_microunits = neg amount;
    reference_id = reservation_id;
    created_at = timestamp;
    created_by = identity.subject;
    version = version;
  }

  unfoldable pub release_mutation :
      IdempotencyScope
      → String
      → String
      → CreditReservation
      → ℤ
      → LedgerEntry
      → ℤ
      → Act ReleaseMutationResult
  release_mutation scope key print updated expected_reservation_version entry
        expected_balance_version =
      do
        start_mutation
        _ ← Reservations.update updated expected_reservation_version
        balance ← append entry expected_balance_version
        let result : ReleaseMutationResult = record {
          reservation = updated;
          balance = balance;
          ledger_entry = entry;
          created = true;
        }
        _ ← Idempotency.put (record {
          scope = scope;
          key = key;
          request_fingerprint = print;
          original_result = IdempotencyResult.release_result result;
        })
        return result

  module _ (identity : VerifiedSubjectIdentity) where
    unfoldable pub release_new :
        String
        → CreditReservation
        → ℤ
        → ℤ
        → String
        → String
        → IdempotencyScope
        → String
        → Act ReleaseMutationResult
    unfolding release_mutation released_reservation
    release_new reservation_id reservation expected_reservation_version expected_balance_version
          idempotency_key request_id scope print =
        do
          raise_when (not (is_open reservation.status))
              (conflict Code.invalid_reservation_transition)
          let rest = remaining reservation
          check_positive rest
          account ← account_of reservation.tenant_id
          timestamp ← read_clock
          let r = released_reservation reservation timestamp
          updated ← construct (reservation_valid r) r
          let e =
              release_entry
                ("release:" ++ reservation_id ++ ":" ++ str_int expected_reservation_version)
                account reservation reservation_id rest timestamp identity
                (expected_balance_version +ℤ pos 1)
          entry ← construct (entry_valid e) e
          attempt ← guarded request_id identity reservation.tenant_id (
              or_replay pick_release replayed_release scope idempotency_key print (
                release_mutation scope idempotency_key print updated expected_reservation_version
                  entry expected_balance_version))
          finish
              (λ _.
                emit
                  (record (event AuditEventType.reservation_released request_id Outcome.succeeded
                    identity reservation.tenant_id) {
                      account_id = some account.account_id;
                      reservation_id = some reservation_id;
                      ledger_entry_id = some entry.entry_id;
                    }))
              attempt

    unfoldable pub release : String → ℤ → ℤ → String → String → Act ReleaseMutationResult
    release reservation_id expected_reservation_version expected_balance_version idempotency_key
          request_id =
        do
          found ← Reservations.get reservation_id
          reservation ← or_raise found (resource_not_found Code.unknown_reservation)
          authorize (λ d. require_executor d identity reservation.tenant_id true)
          check_key idempotency_key
          scope ← make_scope "billing.reservation.release" reservation.tenant_id identity
          let print = fingerprint (
              ("reservation_id", Json.text reservation_id)
              ∷ ("expected_reservation_version", Json.number expected_reservation_version)
              ∷ ("expected_balance_version", Json.number expected_balance_version)
              ∷ [])
          unless_replayed pick_release replayed_release scope idempotency_key print (
              release_new reservation_id reservation expected_reservation_version
                expected_balance_version idempotency_key request_id scope print)
