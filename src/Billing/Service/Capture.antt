-- ===== src/Billing/Service/Capture.antt =====
-- `capture`: a charge against a reservation, with the version of the reservation and of the balance.
use Prim.Native.String.{◌++◌}
use uwo_shared_platform.Prelude.{
  String, Bool, true, false, not, ◌&&◌, Option, none, some, [], ◌∷◌, if◌then◌else◌,
}
use uwo_shared_platform.Prelude.Int.{ℤ, pos, ◌+ℤ◌, ◌-ℤ◌, neg, ltb_ℤ, ◌==ℤ◌}
use uwo_shared_platform.Errors.{Code, conflict, resource_not_found}
use uwo_shared_platform.Env.{Env, Json, iso_le}
use uwo_shared_platform.Contracts.Domain.{VerifiedSubjectIdentity}
use uwo_shared_platform.Contracts.Billing.{
  BillingAccount, ChargeCalculation, CreditReservation, LedgerEntry, LedgerEntryType, RateCard,
  ReservationStatus, UsageDimensions, UsageEvent,
}
use uwo_shared_platform.Contracts.Checks.{entry_valid, reservation_valid, usage_valid}
use uwo_shared_platform.Billing.World.{
  AuditEventType, Outcome, CaptureMutationResult, IdempotencyResult, IdempotencyScope,
}
use uwo_shared_platform.Billing.Ledger.Append.{append}
use uwo_shared_platform.Billing.Idempotency
use uwo_shared_platform.Billing.Pricing.{calculate_charge}
use uwo_shared_platform.Billing.RateCards
use uwo_shared_platform.Billing.Reservations
use uwo_shared_platform.Billing.Usage
use uwo_shared_platform.Billing.Authorizer.{
  require_executor, require_platform_admin, require_active_tenant,
}
use uwo_shared_platform.Billing.Service.Common.{
  check_key, check_positive, authorize, make_scope, active_account, start_mutation, event,
  or_replay, unless_replayed, guarded, fingerprint, make_id, finish,
}
use uwo_shared_platform.Billing.Action.{
  Act, return, raise_when, or_raise, construct, read_clock, emit, ◌>>=◌, ◌>>◌,
}

abbrev pub pick_capture : IdempotencyResult → Option CaptureMutationResult
pick_capture (IdempotencyResult.capture_result r) = some r
pick_capture _ = none

abbrev pub replayed_capture : CaptureMutationResult → CaptureMutationResult
replayed_capture r = record r { created = false }

-- PENDING, ACTIVE or PARTIALLY_CAPTURED
abbrev pub is_open : ReservationStatus → Bool
is_open ReservationStatus.pending = true
is_open ReservationStatus.active = true
is_open ReservationStatus.partially_captured = true
is_open ReservationStatus.captured = false
is_open ReservationStatus.released = false

-- `estimated - captured - released`
unfoldable pub remaining : CreditReservation → ℤ
remaining r = r.estimated_microunits -ℤ r.captured_microunits -ℤ r.released_microunits

-- what a caller reports as used
pub record UsageReport : Type 0 where
  pub usage_event_id : String
  pub provider_id : String
  pub provider_model_id : Option String
  pub region : String
  pub provider_request_id : Option String
  pub dimensions : UsageDimensions

abbrev pub optional_text : Option String → Json
optional_text none = Json.null
optional_text (some s) = Json.text s

-- the reservation behind a capture
unfoldable pub captured_reservation : CreditReservation → ℤ → String → CreditReservation
captured_reservation r charge timestamp =
    let captured = r.captured_microunits +ℤ charge in
    record r {
      captured_microunits = captured;
      status =
          if captured ==ℤ r.estimated_microunits
          then ReservationStatus.captured
          else ReservationStatus.partially_captured;
      updated_at = timestamp;
      version = r.version +ℤ pos 1;
    }

unfoldable pub usage_of :
    String → CreditReservation → UsageReport → String → RateCard → ℤ → UsageEvent
usage_of reservation_id r u timestamp card charge = record {
  usage_event_id = u.usage_event_id;
  reservation_id = reservation_id;
  tenant_id = r.tenant_id;
  product = r.product;
  model = r.model;
  provider_id = u.provider_id;
  provider_model_id = u.provider_model_id;
  region = u.region;
  request_id = r.request_id;
  provider_request_id = u.provider_request_id;
  dimensions = u.dimensions;
  occurred_at = timestamp;
  rate_card_id = card.rate_card_id;
  rate_card_version = card.version;
  calculated_charge_microunits = charge;
}

module _ ⦃env : Env⦄ where
  unfoldable pub capture_entry :
      BillingAccount
      → CreditReservation
      → String
      → String
      → ℤ
      → String
      → VerifiedSubjectIdentity
      → ℤ
      → LedgerEntry
  capture_entry account r reservation_id usage_event_id charge timestamp identity version = record {
    entry_id = make_id "ledger" ("capture:" ++ usage_event_id);
    account_id = account.account_id;
    tenant_id = r.tenant_id;
    entry_type = LedgerEntryType.usage_capture;
    amount_microunits = charge;
    available_delta_microunits = pos 0;
    reserved_delta_microunits = neg charge;
    reference_id = reservation_id;
    created_at = timestamp;
    created_by = identity.subject;
    version = version;
  }

  -- the writes of a capture under the transaction
  unfoldable pub capture_mutation :
      IdempotencyScope
      → String
      → String
      → CreditReservation
      → ℤ
      → UsageEvent
      → LedgerEntry
      → ℤ
      → ChargeCalculation
      → Act CaptureMutationResult
  capture_mutation scope key print updated expected_reservation_version usage entry
        expected_balance_version charge =
      do
        start_mutation
        _ ← Reservations.update updated expected_reservation_version
        _ ← Usage.append usage
        balance ← append entry expected_balance_version
        let result : CaptureMutationResult = record {
          reservation = updated;
          balance = balance;
          usage_event = usage;
          charge = charge;
          ledger_entry = entry;
          created = true;
        }
        _ ← Idempotency.put (record {
          scope = scope;
          key = key;
          request_fingerprint = print;
          original_result = IdempotencyResult.capture_result result;
        })
        return result

  module _ (identity : VerifiedSubjectIdentity) where
    -- what comes behind the early replay
    unfoldable pub capture_new :
        String
        → CreditReservation
        → UsageReport
        → ℤ
        → ℤ
        → String
        → String
        → Bool
        → IdempotencyScope
        → String
        → Act CaptureMutationResult
    unfolding capture_mutation captured_reservation
    capture_new reservation_id reservation u expected_reservation_version expected_balance_version
          idempotency_key request_id override scope print =
        do
          account ← active_account reservation.tenant_id
          raise_when (not (is_open reservation.status))
              (conflict Code.invalid_reservation_transition)
          timestamp ← read_clock
          expired ← (λ w. (iso_le reservation.expires_at timestamp, w))
          raise_when (expired && not override) (conflict Code.reservation_expired)
          card ← (λ w. (RateCards.active_at w.db.rate_cards timestamp, w))
          charge ← (λ w. (
            calculate_charge card reservation.product reservation.model u.provider_id u.region
                u.dimensions timestamp,
            w,
          ))
          let total = charge.total_charge_microunits
          check_positive total
          raise_when (ltb_ℤ (remaining reservation) total)
              (conflict Code.capture_exceeds_reservation)
          let r = captured_reservation reservation total timestamp
          updated ← construct (reservation_valid r) r
          let v = usage_of reservation_id reservation u timestamp card total
          usage ← construct (usage_valid v) v
          let e =
              capture_entry account reservation reservation_id u.usage_event_id total timestamp
                identity (expected_balance_version +ℤ pos 1)
          entry ← construct (entry_valid e) e
          attempt ← guarded request_id identity reservation.tenant_id (
              or_replay pick_capture replayed_capture scope idempotency_key print (
                capture_mutation scope idempotency_key print updated expected_reservation_version
                  usage entry expected_balance_version charge))
          finish
              (λ _.
                emit
                  (record (event
                    (if override
                      then AuditEventType.reservation_captured_override
                      else AuditEventType.reservation_captured)
                    request_id Outcome.succeeded identity reservation.tenant_id) {
                      account_id = some account.account_id;
                      reservation_id = some reservation_id;
                      usage_event_id = some u.usage_event_id;
                      ledger_entry_id = some entry.entry_id;
                    }))
              attempt

    -- the authorization of a capture, which an administrator may override
    abbrev pub authorize_capture : String → Bool → Act (Unit {0})
    authorize_capture tenant_id true = do
      authorize (λ d. require_platform_admin d identity)
      authorize (λ d. require_active_tenant d tenant_id)
    authorize_capture tenant_id false = authorize (λ d. require_executor d identity tenant_id false)

    unfoldable pub capture :
        String → UsageReport → ℤ → ℤ → String → String → Bool → Act CaptureMutationResult
    capture reservation_id u expected_reservation_version expected_balance_version idempotency_key
          request_id override =
        do
          found ← Reservations.get reservation_id
          reservation ← or_raise found (resource_not_found Code.unknown_reservation)
          authorize_capture reservation.tenant_id override
          check_key idempotency_key
          scope ← make_scope "billing.reservation.capture" reservation.tenant_id identity
          let print = fingerprint (
              ("reservation_id", Json.text reservation_id)
              ∷ ("usage_event_id", Json.text u.usage_event_id)
              ∷ ("provider_id", Json.text u.provider_id)
              ∷ ("provider_model_id", optional_text u.provider_model_id)
              ∷ ("region", Json.text u.region)
              ∷ ("provider_request_id", optional_text u.provider_request_id)
              ∷ ("input", Json.number u.dimensions.input_tokens)
              ∷ ("output", Json.number u.dimensions.output_tokens)
              ∷ ("total", Json.number u.dimensions.total_tokens)
              ∷ ("expected_reservation_version", Json.number expected_reservation_version)
              ∷ ("expected_balance_version", Json.number expected_balance_version)
              ∷ ("administrative_override", Json.flag override)
              ∷ [])
          unless_replayed pick_capture replayed_capture scope idempotency_key print (
              capture_new reservation_id reservation u expected_reservation_version
                expected_balance_version idempotency_key request_id override scope print)
