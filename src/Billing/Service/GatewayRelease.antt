-- ===== src/Billing/Service/GatewayRelease.antt =====
-- `release_for_gateway`: the compensation of a failed execution.
use Prim.Native.String.{◌++◌}
use uwo_shared_platform.Prelude.{String, true, not, some, [], ◌∷◌}
use uwo_shared_platform.Prelude.Int.{pos, ◌+ℤ◌}
use uwo_shared_platform.Errors.{Code, conflict, resource_not_found}
use uwo_shared_platform.Env.{Env, Json}
use uwo_shared_platform.Contracts.Domain.{VerifiedSubjectIdentity}
use uwo_shared_platform.Contracts.Checks.{entry_valid, reservation_valid}
use uwo_shared_platform.Billing.World.{
  AuditEventType, Outcome, ReleaseMutationResult, IdempotencyScope,
}
use uwo_shared_platform.Billing.Ledger.{balance}
use uwo_shared_platform.Billing.Reservations
use uwo_shared_platform.Billing.Authorizer.{require_executor}
use uwo_shared_platform.Billing.Service.Common.{
  check_key, check_positive, authorize, make_scope, account_of, event, or_replay, guarded,
  fingerprint, finish,
}
use uwo_shared_platform.Billing.Service.Capture.{is_open, remaining}
use uwo_shared_platform.Billing.Service.Release.{
  pick_release, replayed_release, released_reservation, release_entry, release_mutation,
}
use uwo_shared_platform.Billing.Service.GatewayCapture.{owned}
use uwo_shared_platform.Billing.Action.{
  Act, raise_when, or_raise, construct, read_clock, emit, ◌>>=◌, ◌>>◌,
}

module _ ⦃env : Env⦄ (identity : VerifiedSubjectIdentity) (tenant_id : String) where
  -- the body of the transaction where no record is found
  unfoldable pub gateway_release_body :
      String → IdempotencyScope → String → String → Act ReleaseMutationResult
  unfolding release_mutation released_reservation owned
  gateway_release_body reservation_id scope key print = do
    found ← Reservations.get reservation_id
    reservation ← or_raise (owned found tenant_id) (resource_not_found Code.unknown_reservation)
    raise_when (not (is_open reservation.status)) (conflict Code.invalid_reservation_transition)
    account ← account_of reservation.tenant_id
    timestamp ← read_clock
    before ← (λ w.
        (balance w.db.accounts w.db.ledger account.account_id reservation.tenant_id timestamp, w))
    let rest = remaining reservation
    check_positive rest
    let r = released_reservation reservation timestamp
    updated ← construct (reservation_valid r) r
    let e =
        release_entry ("gateway-release:" ++ reservation_id) account reservation reservation_id rest
          timestamp identity (before.version +ℤ pos 1)
    entry ← construct (entry_valid e) e
    release_mutation scope key print updated reservation.version entry before.version

  unfoldable pub release_for_gateway : String → String → String → Act ReleaseMutationResult
  unfolding gateway_release_body
  release_for_gateway reservation_id idempotency_key request_id = do
    check_key idempotency_key
    authorize (λ d. require_executor d identity tenant_id true)
    scope ← make_scope "billing.gateway.release" tenant_id identity
    let print = fingerprint (("reservation_id", Json.text reservation_id) ∷ [])
    attempt ← guarded request_id identity tenant_id (
        or_replay pick_release replayed_release scope idempotency_key print
          (gateway_release_body reservation_id scope idempotency_key print))
    finish
        (λ r.
          emit
            (record (event AuditEventType.reservation_released request_id Outcome.succeeded identity
              tenant_id) {
                account_id = some r.ledger_entry.account_id;
                reservation_id = some reservation_id;
                ledger_entry_id = some r.ledger_entry.entry_id;
              }))
        attempt
