-- ===== src/Billing/Pricing/Ceiling.antt =====
-- `round_up_ratio` is the ceiling of the ratio, and a charge is made of such ceilings.
use uwo_shared_platform.Prelude.{
  ℕ, zero, suc, ◌+◌, ◌-◌, ◌*◌, ◌/◌, ◌≤◌, ◌<◌, ◌≡◌, ◌↔◌, String, true, some, inl, inr, arith,
  Option-cases,
}
use uwo_shared_platform.Prelude.Int.{ℤ, pos, negsuc, ◌+ℤ◌, ◌-ℤ◌, ◌*ℤ◌, ◌≤ℤ◌, pos_part, +ℤ_parts}
use uwo_shared_platform.Prelude.Keys.{string_eq}
use uwo_shared_platform.Prelude.Selection.{IsFirst, find-IsFirst}
use uwo_shared_platform.Errors.{ok, Result-cases}
use uwo_shared_platform.Env.{Env}
use uwo_shared_platform.Contracts.Domain.{Product, product_value}
use uwo_shared_platform.Contracts.Billing.{RateCard, ModelPrice, UsageDimensions, ChargeCalculation}
use uwo_shared_platform.Contracts.Checks.{charge_valid}
use uwo_shared_platform.Billing.Pricing.{
  token_rate_unit, round_up_ratio, has_key, price_of, calculate_charge,
}

-- c is the least number of units of d that covers n
abbrev pub IsCeiling : ℕ → ℕ → ℕ → Type 0
IsCeiling n d c = (n ≤ c * d) × (c * d < n + d)

ceiling_lem : (n d : ℕ) → 0 < d → IsCeiling n d ((n + d - 1) / d)
ceiling_lem n d h = grind arith

-- On natural numbers with a positive denominator the ratio is returned, rounded up.
pub round_up_ratio-IsCeiling :
    (q r d : ℕ)
    → 0 < d
    → (c : ℕ) × (round_up_ratio (pos q) (pos r) (pos d) ≡ ok (pos c)) × IsCeiling (q * r) d c
unfolding round_up_ratio ◌+ℤ◌ ◌-ℤ◌ ◌*ℤ◌
round_up_ratio-IsCeiling q r d h = ((q * r + d - 1) / d, ground arith, ceiling_lem (q * r) d h)

-- what a returned ratio is of, and what it is
pub record IsRounded (q r d c : ℤ) : Type 0 where
  pub quantity : pos 0 ≤ℤ q
  pub rate : pos 0 ≤ℤ r
  pub denominator : pos 1 ≤ℤ d
  pub natural : pos 0 ≤ℤ c
  pub ceiling : IsCeiling (pos_part q * pos_part r) (pos_part d) (pos_part c)

IsRounded-pos :
    (q r d : ℕ) {c : ℤ}
    → 0 < d
    → round_up_ratio (pos q) (pos r) (pos d) ≡ ok c
    → IsRounded (pos q) (pos r) (pos d) c
IsRounded-pos q r d positive h =
    let (k, returned, ceiling) = round_up_ratio-IsCeiling q r d positive in
    ground (arith, returned, ceiling)

-- A ratio is returned only for a quantity and a rate that are not negative and a positive denominator,
-- and then it is the ceiling of the quotient.
pub round_up_ratio-IsRounded : (q r d : ℤ) {c : ℤ} → round_up_ratio q r d ≡ ok c → IsRounded q r d c
unfolding round_up_ratio ◌+ℤ◌ ◌-ℤ◌ ◌*ℤ◌
round_up_ratio-IsRounded (pos q) (pos r) (pos zero) h = ground arith
round_up_ratio-IsRounded (pos q) (pos r) (pos (suc d)) h = IsRounded-pos q r (suc d) (omega arith) h
round_up_ratio-IsRounded (negsuc q) r d h = ground arith
round_up_ratio-IsRounded (pos q) (negsuc r) d h = ground arith
round_up_ratio-IsRounded (pos q) (pos r) (negsuc d) h = ground arith

-- The key of a price, field by field.
pub record HasKey (product : Product) (model provider_id region : String) (price : ModelPrice)
    : Type 0 where
  pub product_is : product_value price.product ≡ product_value product
  pub model_is : price.model ≡ model
  pub provider_is : price.provider_id ≡ provider_id
  pub region_is : price.region ≡ region

has_key-HasKey :
    (product : Product) (model provider_id region : String) (price : ModelPrice)
    → (has_key product model provider_id region price ≡ true)
      ↔ HasKey product model provider_id region price
unfolding has_key
has_key-HasKey product model provider_id region price =
    let of_product = string_eq.beq_iff (product_value price.product) (product_value product) in
    let of_model = string_eq.beq_iff price.model model in
    let of_provider = string_eq.beq_iff price.provider_id provider_id in
    let of_region = string_eq.beq_iff price.region region in
    (
      λ h. record {
        product_is = ground (arith, of_product);
        model_is = ground (arith, of_model);
        provider_is = ground (arith, of_provider);
        region_is = ground (arith, of_region);
      },
      λ k. ground (
        arith, of_product, of_model, of_provider, of_region, k.product_is, k.model_is,
        k.provider_is, k.region_is,
      ),
    )

module _ ⦃env : Env⦄ where
  -- how a charge comes from the price of its key
  pub record IsCharged (price : ModelPrice) (d : UsageDimensions) (c : ChargeCalculation)
      : Type 0 where
    pub input :
        IsRounded d.input_tokens price.input_token_rate_microunits
          (pos 1000)
          c.input_charge_microunits
    pub output :
        IsRounded d.output_tokens price.output_token_rate_microunits
          (pos 1000)
          c.output_charge_microunits
    pub fixed : c.fixed_charge_microunits ≡ price.fixed_request_microunits
    pub total :
        c.total_charge_microunits
        ≡ c.input_charge_microunits +ℤ c.output_charge_microunits +ℤ c.fixed_charge_microunits
    pub covers_fixed : c.fixed_charge_microunits ≤ℤ c.total_charge_microunits

  charged_lem :
      (card : RateCard) (product : Product) (model provider_id region : String)
      (d : UsageDimensions) (at : String) (price : ModelPrice) {c : ChargeCalculation}
      → price_of card product model provider_id region ≡ some price
      → calculate_charge card product model provider_id region d at ≡ ok c
      → IsCharged price d c
  unfolding calculate_charge charge_valid
  charged_lem card product model provider_id region d at price found h =
      elim (Result-cases
        (round_up_ratio d.input_tokens price.input_token_rate_microunits token_rate_unit)) [
          | inr (x, refused) ↦ absurd (ground arith)
          | inl (input, i) ↦
              elim (Result-cases (
                round_up_ratio d.output_tokens price.output_token_rate_microunits
                  token_rate_unit)) [
                    | inr (x, refused) ↦ absurd (ground arith)
                    | inl (output, o) ↦
                        let sums = +ℤ_parts (input +ℤ output) price.fixed_request_microunits in
                        ground (
                          arith,
                          round_up_ratio-IsRounded d.input_tokens price.input_token_rate_microunits
                              token_rate_unit i,
                          round_up_ratio-IsRounded d.output_tokens
                              price.output_token_rate_microunits token_rate_unit o,
                          +ℤ_parts input output,
                          sums,
                        )
                  ]
        ]

  -- A charge is of the first price of the card that has the product, the model, the provider and the
  -- region asked for, so there is one; its token parts are the rounded up ratios of that price's
  -- rates, and its total is the sum of the parts.
  pub calculate_charge-IsCharged :
      (card : RateCard) (product : Product) (model provider_id region : String)
      (d : UsageDimensions) (at : String) {c : ChargeCalculation}
      → calculate_charge card product model provider_id region d at ≡ ok c
      → (price : ModelPrice) × IsFirst (HasKey product model provider_id region) card.prices price
        × IsCharged price d c
  unfolding calculate_charge price_of
  calculate_charge-IsCharged card product model provider_id region d at h =
      elim (Option-cases (price_of card product model provider_id region)) [
        | inl missing ↦ absurd (ground arith)
        | inr (price, found) ↦ (
          price,
          find-IsFirst _ _ (has_key-HasKey product model provider_id region) card.prices found,
          charged_lem card product model provider_id region d at price found h,
        )
      ]
