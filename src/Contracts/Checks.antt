-- ===== src/Contracts/Checks.antt =====
-- packages/contracts/billing.py: what `__post_init__` of each dataclass tests. A failed test is a
-- ValueError, whichever it is, so the tests of a class are one Boolean.
use uwo_shared_platform.Prelude.{String, Bool, true, not, ◌&&◌, Option, none, some, [], ◌∷◌, all}
use uwo_shared_platform.Prelude.Int.{ℤ, pos, ◌+ℤ◌, neg, abs, leb_ℤ, ◌==ℤ◌}
use uwo_shared_platform.Env.{Env, is_utc}
use uwo_shared_platform.Contracts.Text.{is_identifier}
use uwo_shared_platform.Contracts.Billing.{
  BillingAccount, CreditBalance, CreditReservation, UsageDimensions, UsageEvent, LedgerEntry,
  LedgerEntryType, ChargeCalculation, BillingDecision,
}

-- `_version` and `_integer`
abbrev pub is_version : ℤ → Bool
is_version v = leb_ℤ (pos 1) v

abbrev pub is_integer : ℤ → Bool
is_integer v = leb_ℤ (pos 0) v

-- an optional identifier
abbrev pub is_identifier? : Option String → Bool
is_identifier? none = true
is_identifier? (some s) = is_identifier s

-- `captured + released <= estimated`, over a positive estimate
unfoldable pub amounts_fit : CreditReservation → Bool
amounts_fit r =
    leb_ℤ (pos 1) r.estimated_microunits
    && is_integer r.captured_microunits
    && is_integer r.released_microunits
    && leb_ℤ (r.captured_microunits +ℤ r.released_microunits) r.estimated_microunits

-- The deltas that `validate_financial_semantics` wants of an entry of each type.
unfoldable pub deltas_fit : LedgerEntryType → ℤ → ℤ → ℤ → Bool
deltas_fit LedgerEntryType.credit_grant amount available reserved =
    (available ==ℤ amount) && (reserved ==ℤ pos 0)
deltas_fit LedgerEntryType.usage_reservation amount available reserved =
    (available ==ℤ neg amount) && (reserved ==ℤ amount)
deltas_fit LedgerEntryType.usage_capture amount available reserved =
    (available ==ℤ pos 0) && (reserved ==ℤ neg amount)
deltas_fit LedgerEntryType.reservation_release amount available reserved =
    (available ==ℤ amount) && (reserved ==ℤ neg amount)
deltas_fit LedgerEntryType.refund amount available reserved =
    (available ==ℤ amount) && (reserved ==ℤ pos 0)
deltas_fit LedgerEntryType.credit_adjustment amount available reserved =
    (reserved ==ℤ pos 0) && not (available ==ℤ pos 0) && (abs available ==ℤ amount)

unfoldable pub validate_financial_semantics : LedgerEntry → Bool
unfolding deltas_fit
validate_financial_semantics e =
    deltas_fit e.entry_type e.amount_microunits e.available_delta_microunits
      e.reserved_delta_microunits

unfoldable pub dimensions_valid : UsageDimensions → Bool
dimensions_valid d =
    is_integer d.input_tokens
    && is_integer d.output_tokens
    && is_integer d.total_tokens
    && (d.total_tokens ==ℤ d.input_tokens +ℤ d.output_tokens)

module _ ⦃env : Env⦄ where
  unfoldable pub account_valid : BillingAccount → Bool
  account_valid a =
      is_identifier a.account_id
      && is_identifier a.tenant_id
      && is_utc a.created_at
      && is_utc a.updated_at
      && is_version a.version

  unfoldable pub balance_valid : CreditBalance → Bool
  balance_valid b =
      is_identifier b.account_id
      && is_identifier b.tenant_id
      && is_integer b.available_microunits
      && is_integer b.reserved_microunits
      && is_version b.version
      && is_utc b.as_of

  unfoldable pub reservation_valid : CreditReservation → Bool
  unfolding amounts_fit
  reservation_valid r =
      all is_identifier
        (r.reservation_id ∷ r.account_id ∷ r.tenant_id ∷ r.model ∷ r.request_id ∷ [])
      && amounts_fit r
      && all is_utc (r.created_at ∷ r.expires_at ∷ r.updated_at ∷ [])
      && is_version r.version

  unfoldable pub usage_valid : UsageEvent → Bool
  usage_valid u =
      all is_identifier (
        u.usage_event_id ∷ u.reservation_id ∷ u.tenant_id ∷ u.model ∷ u.provider_id ∷ u.region
        ∷ u.request_id ∷ u.rate_card_id ∷ [])
      && is_identifier? u.provider_model_id
      && is_identifier? u.provider_request_id
      && is_utc u.occurred_at
      && is_version u.rate_card_version
      && is_integer u.calculated_charge_microunits

  unfoldable pub entry_valid : LedgerEntry → Bool
  unfolding validate_financial_semantics
  entry_valid e =
      all is_identifier
        (e.entry_id ∷ e.account_id ∷ e.tenant_id ∷ e.reference_id ∷ e.created_by ∷ [])
      && leb_ℤ (pos 1) e.amount_microunits
      && is_utc e.created_at
      && is_version e.version
      && validate_financial_semantics e

  unfoldable pub charge_valid : ChargeCalculation → Bool
  charge_valid c =
      is_identifier c.rate_card_id
      && is_version c.rate_card_version
      && is_integer c.input_charge_microunits
      && is_integer c.output_charge_microunits
      && is_integer c.fixed_charge_microunits
      && (c.total_charge_microunits
          ==ℤ c.input_charge_microunits +ℤ c.output_charge_microunits +ℤ c.fixed_charge_microunits)
      && is_utc c.calculated_at

  unfoldable pub decision_valid : BillingDecision → Bool
  decision_valid d =
      is_identifier d.decision_id
      && is_identifier d.tenant_id
      && is_identifier d.reason_code
      && is_integer d.estimated_charge_microunits
      && is_utc d.decided_at
