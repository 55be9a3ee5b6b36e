-- ===== src/Gateway/Router/Permitted.antt =====
-- A route is of the providers that the tenant's policy permits for the request, all of them.
use mathlib.Core.List.{Memᴰ}
use uwo_shared_platform.Prelude.{
  ◌≡◌, ◌↔◌, false, some, List, [], ◌∷◌, map, arith, inl, inr, Bool-cases, Option-cases,
}
use uwo_shared_platform.Prelude.Keys.{string_eq}
use uwo_shared_platform.Prelude.Dict.{get}
use uwo_shared_platform.Prelude.Selection.{Selects, any-Mem}
use uwo_shared_platform.ControlPlane.Authorization.{is_in}
use uwo_shared_platform.Gateway.Router.{
  Provider, TenantPolicy, GatewayConfig, RouteRequest, RouteResult, routed, skipped, eligible,
  route,
}

-- The policy allows the provider and does not block it, and it serves the region and the model.
pub record Permits (policy : TenantPolicy) (request : RouteRequest) (p : Provider) : Type 0 where
  pub allowed : Memᴰ p.id policy.allowed_providers
  pub not_blocked : ¬ Memᴰ p.id policy.blocked_providers
  pub in_region : Memᴰ request.region p.regions
  pub has_model : Memᴰ request.model p.models

skipped-Permits :
    (policy : TenantPolicy) (request : RouteRequest) (p : Provider)
    → (skipped policy request p ≡ false) ↔ Permits policy request p
unfolding skipped
skipped-Permits policy request p =
    let allowed = any-Mem p.id policy.allowed_providers in
    let blocked = any-Mem p.id policy.blocked_providers in
    let region = any-Mem request.region p.regions in
    let model = any-Mem request.model p.models in
    (
      λ h. record {
        allowed = allowed.0 (ground arith);
        not_blocked = λ m. absurd (ground (arith, blocked.1 m));
        in_region = region.0 (ground arith);
        has_model = model.0 (ground arith);
      },
      λ k. elim (Bool-cases (is_in p.id policy.blocked_providers)) [
        | inl yes_blocked ↦ absurd (k.not_blocked (blocked.0 yes_blocked))
        | inr not_blocked ↦
            ground (arith, allowed.1 k.allowed, region.1 k.in_region, model.1 k.has_model)
      ],
    )

eligible-Selects :
    (policy : TenantPolicy) (request : RouteRequest) (ps : List Provider)
    → Selects (Permits policy request) ps (eligible policy request ps)
unfolding eligible
eligible-Selects policy request [] = Selects.done
eligible-Selects policy request (p ∷ ps) =
    let rest = eligible-Selects policy request ps in
    let tests = skipped-Permits policy request p in
    elim (Bool-cases (skipped policy request p)) [
      | inl skip ↦ rw skip (Selects.dropped (λ k. absurd (ground (arith, tests.1 k))) rest)
      | inr keep ↦ rw keep (Selects.kept (tests.0 keep) rest)
    ]

-- what a route promises
pub record IsRoute (config : GatewayConfig) (request : RouteRequest) (r : RouteResult)
    : Type 0 where
  pub policy : TenantPolicy
  pub known : get config.tenant_policies request.tenant_id ≡ some policy
  pub region_allowed : Memᴰ request.region policy.allowed_regions
  pub region : r.region ≡ request.region
  pub model : r.model ≡ request.model
  pub providers : List Provider
  pub chain : r.provider ∷ r.fallback ≡ map (λ q. q.id) providers
  pub selected : Selects (Permits policy request) config.providers providers

-- A route is of a known tenant and a region that its policy allows; it keeps the request's model and
-- region; and its provider with the fallbacks behind it are all the providers of the configuration,
-- in their order, that the policy allows and does not block and that serve the region and the model,
-- and no others.
pub route-IsRoute :
    (config : GatewayConfig) (request : RouteRequest) {r : RouteResult}
    → route config request ≡ routed r
    → IsRoute config request r
unfolding route
route-IsRoute config request {r} h =
    elim (Option-cases (get config.tenant_policies request.tenant_id)) [
      | inl unknown ↦ absurd (ground arith)
      | inr (policy, known) ↦ record {
        policy = policy;
        known = known;
        region_allowed = (any-Mem request.region policy.allowed_regions).0 (ground arith);
        region = ground arith;
        model = ground arith;
        providers = eligible policy request config.providers;
        chain = ground arith;
        selected = eligible-Selects policy request config.providers;
      }
    ]
