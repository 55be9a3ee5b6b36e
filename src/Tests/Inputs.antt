-- ===== src/Tests/Inputs.antt =====
-- The theorems on prices, permissions, reservations and the gateway at inputs of the kinds they are about.
use uwo_shared_platform.Prelude.{
  map, ℕ, zero, suc, ◌+◌, ◌*◌, ◌≤◌, ◌≡◌, ◌⊎◌, ◌↔◌, ◌&&◌, not, refl, Bool, true, false, none, some,
  List, [], ◌∷◌, any, leb, if◌then◌else◌, length, arith,
}
use uwo_shared_platform.Prelude.Int.{pos, negsuc, ◌-ℤ◌}
use uwo_shared_platform.Prelude.Keys.{string_eq, int_eq, pair_eq}
use uwo_shared_platform.Prelude.Dict.{get}
use uwo_shared_platform.Prelude.Selection.{IsFirst}
use uwo_shared_platform.Errors.{ok}
use uwo_shared_platform.Contracts.Domain.{
  Product, Tenant, TenantMembership, is_active_membership, is_suspended, product_value,
}
use uwo_shared_platform.Contracts.Billing.{ModelPrice}
use uwo_shared_platform.ControlPlane.Authorization.{
  Permission, permission_value, is_platform_admin, subject_exists, is_in,
}
use uwo_shared_platform.ControlPlane.Authorization.Grants.{grants, require-grants}
use uwo_shared_platform.Billing.Pricing.{round_up_ratio}
use uwo_shared_platform.Billing.Pricing.Ceiling.{
  IsCeiling, IsRounded, IsCharged, HasKey, round_up_ratio-IsCeiling, round_up_ratio-IsRounded,
  calculate_charge-IsCharged,
}
use uwo_shared_platform.Billing.RateCards.InForce.{InForce, active_at-InForce}
use uwo_shared_platform.Billing.Service.Capture.{remaining, captured_reservation}
use uwo_shared_platform.Billing.Service.Release.{released_reservation}
use uwo_shared_platform.Billing.Service.GatewayCapture.{settled_reservation}
use uwo_shared_platform.Billing.Invariant.Reserved.{remaining-settled}
use uwo_shared_platform.Gateway.Router.{
  Provider, TenantPolicy, GatewayConfig, RouteRequest, RouteResult,
}
use uwo_shared_platform.Gateway.Router.Permitted.{IsRoute, route-IsRoute}
use uwo_shared_platform.Gateway.Resilience.{
  ResiliencePolicy, Executor, Outside, provider_error, response, execute,
}
use uwo_shared_platform.Gateway.Resilience.Circuits.{AllTrip, execute-AllTrip}
use uwo_shared_platform.Gateway.Resilience.Attempts.{calls-execute}
use uwo_shared_platform.Tests.World.{card, directory, reader, report, test_env}
use uwo_shared_platform.Tests.Runs.{reserved, settled}

round_up_ratio-IsCeiling_example :
    (c : ℕ) × (round_up_ratio (pos 1001) (pos 3) (pos 1000) ≡ ok (pos c))
    × IsCeiling (1001 * 3) 1000 c
round_up_ratio-IsCeiling_example = round_up_ratio-IsCeiling 1001 3 1000 (omega arith)

round_up_ratio-IsRounded_example : IsRounded (pos 1001) (pos 3) (pos 1000) (pos 4)
unfolding uwo_shared_platform.Billing.Pricing.round_up_ratio uwo_shared_platform.Prelude.Int.◌+ℤ◌
    uwo_shared_platform.Prelude.Int.◌-ℤ◌ uwo_shared_platform.Prelude.Int.◌*ℤ◌
round_up_ratio-IsRounded_example =
    round_up_ratio-IsRounded (pos 1001) (pos 3) (pos 1000) {c = pos 4} refl

calculate_charge-IsCharged_example :
    (price : ModelPrice) × IsFirst (HasKey Product.aisa "m" "p" "eu") card.prices price
    × IsCharged price report.dimensions settled.charge
unfolding uwo_shared_platform.Billing.Pricing.round_up_ratio
    uwo_shared_platform.Billing.Pricing.has_key uwo_shared_platform.Billing.Pricing.price_of
    uwo_shared_platform.Billing.Pricing.calculate_charge
    uwo_shared_platform.Contracts.Checks.charge_valid
    uwo_shared_platform.Contracts.Domain.product_value
    uwo_shared_platform.Contracts.Text.is_identifier uwo_shared_platform.Env.is_utc
    uwo_shared_platform.Prelude.Int.◌+ℤ◌ uwo_shared_platform.Prelude.Int.◌-ℤ◌
    uwo_shared_platform.Prelude.Int.◌*ℤ◌
calculate_charge-IsCharged_example =
    calculate_charge-IsCharged card Product.aisa "m" "p" "eu" report.dimensions "TT"
      {c = settled.charge} refl

active_at-InForce_example : InForce ((("rc", pos 1), card) ∷ []) "TT" card
unfolding uwo_shared_platform.Billing.RateCards.active_at uwo_shared_platform.Env.iso_le
active_at-InForce_example = active_at-InForce ((("rc", pos 1), card) ∷ []) "TT" {c = card} refl

require-grants_example :
    (subject_exists directory "reader" ≡ true)
    × ((is_platform_admin directory reader ≡ true)
        ⊎ ((reader.tenant_id ≡ "t1")
            × ((m : TenantMembership) × (get directory.memberships ("t1", "reader") ≡ some m)
                × (is_active_membership m.status ≡ true)
                × (any (grants directory (permission_value Permission.billing_read)) m.role_ids
                    ≡ true))))
unfolding uwo_shared_platform.ControlPlane.Authorization.permission_value
    uwo_shared_platform.ControlPlane.Authorization.update_set
    uwo_shared_platform.ControlPlane.Authorization.role_permissions
    uwo_shared_platform.ControlPlane.Authorization.effective_permissions
    uwo_shared_platform.ControlPlane.Authorization.require uwo_shared_platform.Prelude.Dict.get
require-grants_example = require-grants directory reader "t1" Permission.billing_read false refl

remaining-settled_example :
    (remaining (captured_reservation reserved.reservation (pos 12) "TT")
      ≡ remaining reserved.reservation -ℤ pos 12)
    × (remaining (settled_reservation reserved.reservation (pos 12) "TT") ≡ pos 0)
    × (remaining (released_reservation reserved.reservation "TT") ≡ pos 0)
remaining-settled_example = remaining-settled reserved.reservation (pos 12) "TT"

abbrev provider : Provider
provider = record {
  id = "p1";
  regions = "eu" ∷ [];
  models = "m" ∷ [];
  priority = pos 1;
  adapter = "a";
  endpoint = "https://p1";
  secret_ref = "s1";
  model_map = ("m", "m-1") ∷ [];
}

abbrev pub config : GatewayConfig
config = record {
  providers =
      record provider { id = "p0"; regions = "us" ∷ [] }
      ∷ provider
      ∷ record provider { id = "p2" }
      ∷ record provider { id = "p3" }
      ∷ [];
  tenant_policies =
      (
        "t1",
        record {
          allowed_providers = "p0" ∷ "p1" ∷ "p2" ∷ "p3" ∷ [];
          blocked_providers = "p2" ∷ [];
          allowed_regions = "eu" ∷ [];
          allowed_products = Product.aisa ∷ [];
          allowed_models = "m" ∷ [];
          billing_authorized = true;
          content_safety_enabled = true;
          content_safety_blocked_terms = "bad" ∷ [];
        },
      )
      ∷ [];
}

abbrev to_route : RouteRequest
to_route = record { tenant_id = "t1"; product = Product.aisa; model = "m"; region = "eu" }

abbrev the_route : RouteResult
the_route = record { provider = "p1"; model = "m"; region = "eu"; fallback = "p3" ∷ [] }

route-IsRoute_example : IsRoute config to_route the_route
unfolding uwo_shared_platform.Gateway.Router.route uwo_shared_platform.Gateway.Router.eligible
    uwo_shared_platform.Gateway.Router.skipped uwo_shared_platform.Prelude.Dict.get
route-IsRoute_example = route-IsRoute config to_route {r = the_route} refl

-- the second provider answers; the first fails and may be called again
abbrev outside : Outside ℕ ℕ
outside = record {
  clock = λ n. n;
  is_due = λ now opened. leb (opened + 5) now;
  has_adapter = λ id. true;
  reply = λ id n. if leb 2 n then response n else provider_error true true;
}

abbrev pub policy : ResiliencePolicy
policy = record { max_attempts = 2; circuit_failure_threshold = 2 }

abbrev pub executor_start : Executor ℕ
executor_start = record {
  states =
      ("p1", record { failures = 0; opened_at = none })
      ∷ ("p3", record { failures = 1; opened_at = none })
      ∷ [];
  readings = 0;
  calls = 0;
  sleeps = 0;
}

start-AllTrip : AllTrip policy outside executor_start.states
unfolding get
start-AllTrip = record { at = λ id s found. ground arith }

execute-AllTrip_example :
    AllTrip policy outside (execute policy outside ("p1" ∷ "p3" ∷ []) [] executor_start).1.states
execute-AllTrip_example =
    execute-AllTrip policy outside (omega arith) ("p1" ∷ "p3" ∷ []) [] executor_start start-AllTrip

calls-execute_example :
    (execute policy outside ("p1" ∷ "p3" ∷ []) [] executor_start).1.calls ≤ 0 + 2 * 2
calls-execute_example = calls-execute policy outside ("p1" ∷ "p3" ∷ []) [] executor_start
