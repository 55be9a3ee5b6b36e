-- ===== src/Gateway/Execution/Configured.antt =====
-- `build_dependencies` of services/ai_gateway/app.py: the execution service over the router, the
-- entitlements, the bootstrap billing, the content safety and the executor of the gateway itself.
use Prim.Native.String.{◌++◌}
use uwo_shared_platform.Prelude.{String, true, none, [], if◌then◌else◌}
use uwo_shared_platform.Prelude.Int.{pos}
use uwo_shared_platform.Env.{Env}
use uwo_shared_platform.Contracts.Billing.{BillingDecision}
use uwo_shared_platform.Contracts.Checks.{decision_valid}
use uwo_shared_platform.Gateway.Access
use uwo_shared_platform.Gateway.Access.{Access, AccessError, granted, refused}
use uwo_shared_platform.Gateway.ContentSafety.{Safety, authorize_content}
use uwo_shared_platform.Gateway.Router
use uwo_shared_platform.Gateway.Router.{
  GatewayConfig, RouteRequest, RouteResult, Routed, RoutingError,
}
use uwo_shared_platform.Gateway.Resilience
use uwo_shared_platform.Gateway.Resilience.{ResiliencePolicy, Executor, Outside, Outcome}
use uwo_shared_platform.Gateway.Execution.Data.{
  ProviderRequest, ProviderResponse, ExecutionResult, Failure, Returned, returned, raised,
  Collaborators,
}

abbrev access_code : AccessError → String
access_code AccessError.tenant_identity_mismatch = "tenant_identity_mismatch"
access_code AccessError.unknown_tenant = "unknown_tenant"
access_code AccessError.product_not_entitled = "product_not_entitled"
access_code AccessError.model_not_entitled = "model_not_entitled"
access_code AccessError.credits_not_authorized = "credits_not_authorized"

abbrev entitled : Access (Unit {0}) → Returned (Unit {0})
entitled (granted u) = returned u
entitled (refused e) = raised (Failure.authorization_error (access_code e))

abbrev checked : Safety → Returned (Unit {0})
checked Safety.safe = returned tt
checked (Safety.denied code) = raised (Failure.content_safety_error code)

abbrev routing_code : RoutingError → String
routing_code RoutingError.unknown_tenant = "unknown_tenant"
routing_code RoutingError.region_not_allowed = "region_not_allowed"
routing_code RoutingError.no_eligible_provider = "no_eligible_provider"

abbrev routed_to : Routed → Returned RouteResult
routed_to (Routed.routed r) = returned r
routed_to (Routed.refused e) = raised (Failure.routing_error (routing_code e))

-- the exception that ends `ResilientProviderExecutor.execute`; of the adapter's own it is not known
-- here which one it is
abbrev executed : Outcome ProviderResponse → Returned ExecutionResult
executed (Outcome.returned id response) =
    returned (record { provider_id = id; response = response })
executed Outcome.raised = raised (Failure.provider_error "provider_error")
executed (Outcome.next failures) = raised (Failure.other none)
executed Outcome.key_error = raised (Failure.other none)
executed (Outcome.provider_unavailable failures) = raised (Failure.other none)

-- `GatewayReservation`
pub record Reservation : Type 0 where
  pub reservation_id : String
  pub tenant_id : String
  pub request_id : String

-- the decision of `AuthorizationOnlyGatewayBilling.authorize_estimated_charge`, made at a time
abbrev decision_of : String → String → String → BillingDecision
decision_of tenant_id request_id decided_at = record {
  decision_id = "config:" ++ request_id;
  tenant_id = tenant_id;
  approved = true;
  estimated_charge_microunits = pos 0;
  reason_code = "config_authorized";
  decided_at = decided_at;
}

-- The service drops the decision, but constructing it can raise.
abbrev billed : ⦃env : Env⦄ → Access String → BillingDecision → Returned (Unit {0})
billed (granted id) decision =
    if decision_valid decision then returned tt else raised Failure.value_error
billed (refused e) decision = raised (Failure.billing_error (access_code e))

-- `utc_now` is read from the state of the outside.
module _ ⦃env : Env⦄ {Time : Type 0} (utc_now : Executor Time → String) (casefold : String → String)
    (policy : ResiliencePolicy) (outside : ProviderRequest → Outside Time ProviderResponse)
    (config : GatewayConfig) where
  unfoldable pub configured : Collaborators (Executor Time) Reservation
  configured = record {
    authorize = λ identity tenant_id product model s.
        (entitled (Access.authorize config identity.tenant_id tenant_id product model), s);
    authorize_estimated_charge = λ tenant_id product model request_id s. (
      billed (Access.authorize_billing config tenant_id request_id)
          (decision_of tenant_id request_id (utc_now s)),
      s,
    );
    authorize_input = λ tenant_id product model content request_id s.
        (checked (authorize_content casefold config tenant_id content "input"), s);
    route = λ request s. (routed_to (Router.route config request), s);
    reserve = λ tenant_id product model request_id s. (
      returned (record {
        reservation_id = "config:" ++ request_id;
        tenant_id = tenant_id;
        request_id = request_id;
      }),
      s,
    );
    execute = λ providers request s.
        let (ended, s') = Resilience.execute policy (outside request) providers [] s in
        (executed ended, s');
    authorize_output = λ tenant_id product model content request_id s.
        (checked (authorize_content casefold config tenant_id content "output"), s);
    capture =
        λ r provider_id model region provider_request_id input output total s. (returned tt, s);
    release_on_failure = λ r s. (returned tt, s);
  }
