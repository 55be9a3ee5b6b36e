-- ===== src/Gateway/Router.antt =====
-- services/ai_gateway/router.py: `ModelRouter`, over the configuration of config.py.
pub mod Permitted
use uwo_shared_platform.Prelude.{
  String, Bool, not, ◌&&◌, ◌||◌, Option, none, some, List, [], ◌∷◌, map, if◌then◌else◌,
}
use uwo_shared_platform.Prelude.Int.{ℤ}
use uwo_shared_platform.Prelude.Keys.{string_eq}
use uwo_shared_platform.Prelude.Dict.{Dict, get}
use uwo_shared_platform.Contracts.Domain.{Product}
use uwo_shared_platform.ControlPlane.Authorization.{is_in}

pub record Provider : Type 0 where
  pub id : String
  pub regions : List String
  pub models : List String
  pub priority : ℤ
  pub adapter : String
  pub endpoint : String
  pub secret_ref : String
  pub model_map : Dict String String

pub record TenantPolicy : Type 0 where
  pub allowed_providers : List String
  pub blocked_providers : List String
  pub allowed_regions : List String
  pub allowed_products : List Product
  pub allowed_models : List String
  pub billing_authorized : Bool
  pub content_safety_enabled : Bool
  pub content_safety_blocked_terms : List String

pub record GatewayConfig : Type 0 where
  pub providers : List Provider
  pub tenant_policies : Dict String TenantPolicy

pub record RouteRequest : Type 0 where
  pub tenant_id : String
  pub product : Product
  pub model : String
  pub region : String

pub record RouteResult : Type 0 where
  pub provider : String
  pub model : String
  pub region : String
  pub fallback : List String

-- the `code` of a `RoutingError`
pub data RoutingError : Type 0 where
  unknown_tenant region_not_allowed no_eligible_provider : RoutingError

pub data Routed : Type 0 where
  routed : RouteResult → Routed
  refused : RoutingError → Routed

-- the three tests of the loop, each of which skips the provider
unfoldable pub skipped : TenantPolicy → RouteRequest → Provider → Bool
skipped policy request p =
    not (is_in p.id policy.allowed_providers)
    || is_in p.id policy.blocked_providers
    || (not (is_in request.region p.regions) || not (is_in request.model p.models))

-- the loop over the providers
unfoldable pub eligible : TenantPolicy → RouteRequest → List Provider → List Provider
eligible policy request [] = []
eligible policy request (p ∷ ps) =
    let rest = eligible policy request ps in if skipped policy request p then rest else p ∷ rest

abbrev pub first_of : RouteRequest → List Provider → Routed
first_of request [] = refused RoutingError.no_eligible_provider
first_of request (p ∷ ps) = routed (record {
  provider = p.id;
  model = request.model;
  region = request.region;
  fallback = map (λ q. q.id) ps;
})

abbrev under : Option TenantPolicy → List Provider → RouteRequest → Routed
under none providers request = refused RoutingError.unknown_tenant
under (some policy) providers request =
    if not (is_in request.region policy.allowed_regions)
    then refused RoutingError.region_not_allowed
    else first_of request (eligible policy request providers)

unfoldable pub route : GatewayConfig → RouteRequest → Routed
unfolding eligible
route config request = under (get config.tenant_policies request.tenant_id) config.providers request
