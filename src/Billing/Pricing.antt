-- ===== src/Billing/Pricing.antt =====
-- services/platform_billing/pricing.py: charges in whole microunits, rounded up.
pub mod Ceiling
use uwo_shared_platform.Prelude.{
  ℕ, ◌+◌, ◌-◌, ◌*◌, ◌/◌, String, Bool, ◌||◌, ◌&&◌, Option, none, some, List, find, if◌then◌else◌,
}
use uwo_shared_platform.Prelude.Int.{ℤ, pos, negsuc, ◌+ℤ◌, ◌-ℤ◌, ◌*ℤ◌, ltb_ℤ, pos_part}
use uwo_shared_platform.Prelude.Keys.{string_eq, ◌==◌}
use uwo_shared_platform.Errors.{
  Code, Result, ok, err, invalid_request, resource_not_found, raise_if, make, ◌>>=◌, ◌>>◌,
}
use uwo_shared_platform.Env.{Env}
use uwo_shared_platform.Contracts.Domain.{Product, product_value}
use uwo_shared_platform.Contracts.Billing.{RateCard, ModelPrice, UsageDimensions, ChargeCalculation}
use uwo_shared_platform.Contracts.Checks.{charge_valid}

-- `TOKEN_RATE_UNIT`
abbrev pub token_rate_unit : ℤ
token_rate_unit = pos 1000

-- `a // b` for a positive `b`: rounded towards minus infinity
unfoldable pub floor_div : ℤ → ℤ → ℤ
floor_div (pos a) b = pos (a / pos_part b)
floor_div (negsuc a) b = negsuc (a / pos_part b)

unfoldable pub round_up_ratio : ℤ → ℤ → ℤ → Result ℤ
unfolding floor_div
round_up_ratio quantity rate denominator = do
  raise_if (ltb_ℤ quantity (pos 0)) (invalid_request Code.invalid_usage)
  raise_if (ltb_ℤ rate (pos 0)) (invalid_request Code.invalid_usage)
  raise_if (ltb_ℤ denominator (pos 1)) (invalid_request Code.invalid_usage)
  let numerator = quantity *ℤ rate
  ok (floor_div (numerator +ℤ denominator -ℤ pos 1) denominator)

-- `item.key == key`
unfoldable pub has_key : Product → String → String → String → ModelPrice → Bool
has_key product model provider_id region p =
    (product_value p.product == product_value product)
    && (p.model == model)
    && (p.provider_id == provider_id)
    && (p.region == region)

unfoldable pub price_of : RateCard → Product → String → String → String → Option ModelPrice
price_of card product model provider_id region =
    find (has_key product model provider_id region) card.prices

abbrev price_or_raise : Option ModelPrice → Result ModelPrice
price_or_raise none = err (resource_not_found Code.unknown_rate)
price_or_raise (some p) = ok p

module _ ⦃env : Env⦄ where
  -- `calculate_charge` with its time given, as every caller gives it
  unfoldable pub calculate_charge :
      RateCard
      → Product
      → String
      → String
      → String
      → UsageDimensions
      → String
      → Result ChargeCalculation
  calculate_charge card product model provider_id region dimensions calculated_at = do
    price ← price_or_raise (price_of card product model provider_id region)
    input ← round_up_ratio dimensions.input_tokens price.input_token_rate_microunits token_rate_unit
    output ←
        round_up_ratio dimensions.output_tokens price.output_token_rate_microunits token_rate_unit
    let charge : ChargeCalculation = record {
      rate_card_id = card.rate_card_id;
      rate_card_version = card.version;
      input_charge_microunits = input;
      output_charge_microunits = output;
      fixed_charge_microunits = price.fixed_request_microunits;
      total_charge_microunits = input +ℤ output +ℤ price.fixed_request_microunits;
      calculated_at = calculated_at;
    }
    make (charge_valid charge) charge
