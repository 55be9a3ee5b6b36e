-- ===== src/Billing/Service/GatewayCapture.antt =====
-- `capture_for_gateway`: a charge against a reservation as the transaction finds it; what is left of
-- the reservation is released at once.
use Prim.Native.String.{◌++◌}
use uwo_shared_platform.Prelude.{
  String, true, false, not, Option, none, some, [], ◌∷◌, if◌then◌else◌,
}
use uwo_shared_platform.Prelude.Int.{ℤ, pos, ◌+ℤ◌, ◌-ℤ◌, ltb_ℤ, ◌==ℤ◌}
use uwo_shared_platform.Prelude.Keys.{string_eq, ◌==◌}
use uwo_shared_platform.Errors.{Code, conflict, resource_not_found}
use uwo_shared_platform.Env.{Env, Json, iso_le}
use uwo_shared_platform.Contracts.Domain.{VerifiedSubjectIdentity}
use uwo_shared_platform.Contracts.Billing.{
  BillingAccount, ChargeCalculation, CreditBalance, CreditReservation, LedgerEntry,
  ReservationStatus, UsageEvent,
}
use uwo_shared_platform.Contracts.Checks.{entry_valid, reservation_valid, usage_valid}
use uwo_shared_platform.Billing.World.{
  AuditEventType, Outcome, CaptureMutationResult, IdempotencyResult, IdempotencyScope,
}
use uwo_shared_platform.Billing.Ledger.{balance}
use uwo_shared_platform.Billing.Ledger.Append.{append}
use uwo_shared_platform.Billing.Idempotency
use uwo_shared_platform.Billing.Pricing.{calculate_charge}
use uwo_shared_platform.Billing.RateCards
use uwo_shared_platform.Billing.Reservations
use uwo_shared_platform.Billing.Usage
use uwo_shared_platform.Billing.Authorizer.{require_executor}
use uwo_shared_platform.Billing.Service.Common.{
  check_key, check_positive, authorize, make_scope, active_account, start_mutation, event,
  or_replay, guarded, fingerprint, finish,
}
use uwo_shared_platform.Billing.Service.Capture.{
  UsageReport, pick_capture, replayed_capture, is_open, remaining, optional_text, usage_of,
  capture_entry,
}
use uwo_shared_platform.Billing.Service.Release.{release_entry}
use uwo_shared_platform.Billing.Action.{
  Act, return, raise_when, or_raise, construct, read_clock, emit, ◌>>=◌, ◌>>◌,
}

-- the reservation, if it is there and of the tenant
unfoldable pub owned : Option CreditReservation → String → Option CreditReservation
owned none tenant_id = none
owned (some r) tenant_id = if r.tenant_id == tenant_id then some r else none

-- the reservation behind the capture and the release of its rest
unfoldable pub settled_reservation : CreditReservation → ℤ → String → CreditReservation
unfolding remaining
settled_reservation r charge timestamp =
    let unused = remaining r -ℤ charge in
    record r {
      captured_microunits = r.captured_microunits +ℤ charge;
      released_microunits = r.released_microunits +ℤ unused;
      status = if unused ==ℤ pos 0 then ReservationStatus.captured else ReservationStatus.released;
      updated_at = timestamp;
      version = r.version +ℤ pos 1;
    }

module _ ⦃env : Env⦄ (identity : VerifiedSubjectIdentity) (tenant_id : String) where
  -- `if unused: …`: the entry that releases the rest, on top of the balance behind the capture
  unfoldable pub release_unused :
      BillingAccount
      → CreditReservation
      → String
      → String
      → ℤ
      → String
      → CreditBalance
      → Act CreditBalance
  release_unused account r reservation_id usage_event_id unused timestamp b =
      if unused ==ℤ pos 0 then return b else do
        let e =
            release_entry ("release-after-capture:" ++ usage_event_id) account r reservation_id
              unused timestamp identity (b.version +ℤ pos 1)
        entry ← construct (entry_valid e) e
        append entry b.version

  -- the writes of the settlement
  unfoldable pub settle_mutation :
      IdempotencyScope
      → String
      → String
      → BillingAccount
      → CreditReservation
      → String
      → CreditReservation
      → UsageEvent
      → LedgerEntry
      → ℤ
      → ChargeCalculation
      → String
      → Act CaptureMutationResult
  unfolding release_unused
  settle_mutation scope key print account reservation reservation_id updated usage entry version
        charge timestamp =
      do
        start_mutation
        _ ← Reservations.update updated reservation.version
        _ ← Usage.append usage
        captured ← append entry version
        b ←
            release_unused account reservation reservation_id usage.usage_event_id
              (remaining reservation -ℤ charge.total_charge_microunits) timestamp captured
        let result : CaptureMutationResult = record {
          reservation = updated;
          balance = b;
          usage_event = usage;
          charge = charge;
          ledger_entry = entry;
          created = true;
        }
        _ ← Idempotency.put (record {
          scope = scope;
          key = key;
          request_fingerprint = print;
          original_result = IdempotencyResult.capture_result result;
        })
        return result

  -- the body of the transaction where no record is found
  unfoldable pub gateway_capture_body :
      String → UsageReport → IdempotencyScope → String → String → Act CaptureMutationResult
  unfolding settle_mutation settled_reservation owned
  gateway_capture_body reservation_id u scope key print = do
    found ← Reservations.get reservation_id
    reservation ← or_raise (owned found tenant_id) (resource_not_found Code.unknown_reservation)
    account ← active_account reservation.tenant_id
    raise_when (not (is_open reservation.status)) (conflict Code.invalid_reservation_transition)
    timestamp ← read_clock
    expired ← (λ w. (iso_le reservation.expires_at timestamp, w))
    raise_when expired (conflict Code.reservation_expired)
    card ← (λ w. (RateCards.active_at w.db.rate_cards timestamp, w))
    charge ← (λ w. (
      calculate_charge card reservation.product reservation.model u.provider_id u.region
          u.dimensions timestamp,
      w,
    ))
    let total = charge.total_charge_microunits
    check_positive total
    raise_when (ltb_ℤ (remaining reservation) total) (conflict Code.capture_exceeds_reservation)
    before ← (λ w.
        (balance w.db.accounts w.db.ledger account.account_id reservation.tenant_id timestamp, w))
    let r = settled_reservation reservation total timestamp
    updated ← construct (reservation_valid r) r
    let v = usage_of reservation_id reservation u timestamp card total
    usage ← construct (usage_valid v) v
    let e =
        capture_entry account reservation reservation_id u.usage_event_id total timestamp identity
          (before.version +ℤ pos 1)
    entry ← construct (entry_valid e) e
    settle_mutation scope key print account reservation reservation_id updated usage entry
        before.version charge timestamp

  unfoldable pub capture_for_gateway :
      String → UsageReport → String → String → Act CaptureMutationResult
  unfolding gateway_capture_body
  capture_for_gateway reservation_id u idempotency_key request_id = do
    check_key idempotency_key
    authorize (λ d. require_executor d identity tenant_id false)
    scope ← make_scope "billing.gateway.capture" tenant_id identity
    let print = fingerprint (
        ("reservation_id", Json.text reservation_id)
        ∷ ("usage_event_id", Json.text u.usage_event_id)
        ∷ ("provider_id", Json.text u.provider_id)
        ∷ ("provider_model_id", optional_text u.provider_model_id)
        ∷ ("region", Json.text u.region)
        ∷ ("provider_request_id", optional_text u.provider_request_id)
        ∷ ("input", Json.number u.dimensions.input_tokens)
        ∷ ("output", Json.number u.dimensions.output_tokens)
        ∷ ("total", Json.number u.dimensions.total_tokens)
        ∷ [])
    attempt ← guarded request_id identity tenant_id (
        or_replay pick_capture replayed_capture scope idempotency_key print
          (gateway_capture_body reservation_id u scope idempotency_key print))
    finish
        (λ r.
          emit
            (record (event AuditEventType.reservation_captured request_id Outcome.succeeded identity
              tenant_id) {
                account_id = some r.ledger_entry.account_id;
                reservation_id = some reservation_id;
                usage_event_id = some u.usage_event_id;
                ledger_entry_id = some r.ledger_entry.entry_id;
              }))
        attempt
