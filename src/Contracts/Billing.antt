-- ===== src/Contracts/Billing.antt =====
-- packages/contracts/billing.py: the frozen dataclasses and their enumerations.
use uwo_shared_platform.Prelude.{String, Bool, Option, List}
use uwo_shared_platform.Prelude.Int.{ℤ}
use uwo_shared_platform.Contracts.Domain.{Product}

pub data BillingAccountStatus : Type 0 where
  active suspended closed : BillingAccountStatus

pub data ReservationStatus : Type 0 where
  pending active partially_captured captured released : ReservationStatus

pub data LedgerEntryType : Type 0 where
  credit_grant credit_adjustment usage_reservation usage_capture : LedgerEntryType
  reservation_release refund : LedgerEntryType

pub record BillingAccount : Type 0 where
  pub account_id : String
  pub tenant_id : String
  pub status : BillingAccountStatus
  pub created_at : String
  pub updated_at : String
  pub version : ℤ

pub record CreditBalance : Type 0 where
  pub account_id : String
  pub tenant_id : String
  pub available_microunits : ℤ
  pub reserved_microunits : ℤ
  pub version : ℤ
  pub as_of : String

pub record CreditReservation : Type 0 where
  pub reservation_id : String
  pub account_id : String
  pub tenant_id : String
  pub product : Product
  pub model : String
  pub request_id : String
  pub estimated_microunits : ℤ
  pub captured_microunits : ℤ
  pub released_microunits : ℤ
  pub status : ReservationStatus
  pub created_at : String
  pub expires_at : String
  pub updated_at : String
  pub version : ℤ

pub record UsageDimensions : Type 0 where
  pub input_tokens : ℤ
  pub output_tokens : ℤ
  pub total_tokens : ℤ

pub record UsageEvent : Type 0 where
  pub usage_event_id : String
  pub reservation_id : String
  pub tenant_id : String
  pub product : Product
  pub model : String
  pub provider_id : String
  pub provider_model_id : Option String
  pub region : String
  pub request_id : String
  pub provider_request_id : Option String
  pub dimensions : UsageDimensions
  pub occurred_at : String
  pub rate_card_id : String
  pub rate_card_version : ℤ
  pub calculated_charge_microunits : ℤ

pub record LedgerEntry : Type 0 where
  pub entry_id : String
  pub account_id : String
  pub tenant_id : String
  pub entry_type : LedgerEntryType
  pub amount_microunits : ℤ
  pub available_delta_microunits : ℤ
  pub reserved_delta_microunits : ℤ
  pub reference_id : String
  pub created_at : String
  pub created_by : String
  pub version : ℤ

pub record RateCardVersion : Type 0 where
  pub rate_card_id : String
  pub version : ℤ
  pub effective_at : String

pub record ModelPrice : Type 0 where
  pub product : Product
  pub model : String
  pub provider_id : String
  pub region : String
  pub input_token_rate_microunits : ℤ
  pub output_token_rate_microunits : ℤ
  pub fixed_request_microunits : ℤ

pub record RateCard : Type 0 where
  pub rate_card_id : String
  pub version : ℤ
  pub effective_at : String
  pub prices : List ModelPrice
  pub created_at : String

pub record ChargeCalculation : Type 0 where
  pub rate_card_id : String
  pub rate_card_version : ℤ
  pub input_charge_microunits : ℤ
  pub output_charge_microunits : ℤ
  pub fixed_charge_microunits : ℤ
  pub total_charge_microunits : ℤ
  pub calculated_at : String

pub record BillingDecision : Type 0 where
  pub decision_id : String
  pub tenant_id : String
  pub approved : Bool
  pub estimated_charge_microunits : ℤ
  pub reason_code : String
  pub decided_at : String
