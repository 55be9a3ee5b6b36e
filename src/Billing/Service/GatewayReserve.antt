-- ===== src/Billing/Service/GatewayReserve.antt =====
-- `reserve_for_gateway`: a reservation against the balance as the transaction finds it.
use uwo_shared_platform.Prelude.{String, false, none, some, [], ◌∷◌}
use uwo_shared_platform.Prelude.Int.{ℤ, pos, ◌+ℤ◌}
use uwo_shared_platform.Errors.{overflow_error}
use uwo_shared_platform.Env.{Env, Json, parse_iso}
use uwo_shared_platform.Contracts.Domain.{product_value, VerifiedSubjectIdentity}
use uwo_shared_platform.Contracts.Checks.{entry_valid, reservation_valid}
use uwo_shared_platform.Billing.World.{
  AuditEventType, Outcome, ReservationMutationResult, IdempotencyScope,
}
use uwo_shared_platform.Billing.Ledger.{balance}
use uwo_shared_platform.Billing.Authorizer.{require_executor}
use uwo_shared_platform.Billing.Service.Common.{
  check_key, check_positive, authorize, make_scope, active_account, event, or_replay, guarded,
  fingerprint, finish, or_payment_required, denial,
}
use uwo_shared_platform.Billing.Service.Reserve.{
  ReservationRequest, pick_reservation, replayed_reservation, reservation_for, reserve_entry,
  reserve_mutation,
}
use uwo_shared_platform.Billing.Action.{Act, or_raise, construct, read_clock, emit, ◌>>=◌, ◌>>◌}

module _ ⦃env : Env⦄ (identity : VerifiedSubjectIdentity) (tenant_id : String) where
  -- the body of the transaction where no record is found
  unfoldable pub gateway_reserve_body :
      ReservationRequest → ℤ → IdempotencyScope → String → String → Act ReservationMutationResult
  unfolding reserve_mutation
  gateway_reserve_body q reservation_seconds scope key print = do
    account ← active_account tenant_id
    timestamp ← read_clock
    now ← (λ w. (parse_iso timestamp, w))
    expires_at ← or_raise (env.plus_seconds now reservation_seconds) overflow_error
    before ← (λ w. (balance w.db.accounts w.db.ledger account.account_id tenant_id timestamp, w))
    let r = reservation_for account tenant_id q timestamp expires_at
    reservation ← construct (reservation_valid r) r
    let e = reserve_entry reservation identity (before.version +ℤ pos 1)
    entry ← construct (entry_valid e) e
    reserve_mutation scope key print reservation entry before.version

  unfoldable pub reserve_for_gateway :
      ReservationRequest → ℤ → String → Act ReservationMutationResult
  unfolding gateway_reserve_body
  reserve_for_gateway q reservation_seconds idempotency_key = do
    authorize (λ d. require_executor d identity tenant_id false)
    check_positive q.amount_microunits
    check_positive reservation_seconds
    check_key idempotency_key
    scope ← make_scope "billing.gateway.reserve" tenant_id identity
    let print = fingerprint (
        ("tenant_id", Json.text tenant_id)
        ∷ ("product", Json.text (product_value q.product))
        ∷ ("model", Json.text q.model)
        ∷ ("request_id", Json.text q.request_id)
        ∷ ("amount", Json.number q.amount_microunits)
        ∷ ("reservation_seconds", Json.number reservation_seconds)
        ∷ [])
    attempt ← or_payment_required (denial q.request_id identity tenant_id none) (
        guarded q.request_id identity tenant_id (
          or_replay pick_reservation replayed_reservation scope idempotency_key print
            (gateway_reserve_body q reservation_seconds scope idempotency_key print)))
    finish
        (λ r.
          emit
            (record (event AuditEventType.reservation_created q.request_id Outcome.succeeded
              identity tenant_id) {
                account_id = some r.ledger_entry.account_id;
                reservation_id = some r.reservation.reservation_id;
                ledger_entry_id = some r.ledger_entry.entry_id;
              }))
        attempt
