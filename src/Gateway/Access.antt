-- ===== src/Gateway/Access.antt =====
-- services/ai_gateway/authorization.py and billing.py: who may use a product and a model by the
-- configuration, and the bridge that authorizes charges by it.
use Prim.Native.String.{◌++◌}
use uwo_shared_platform.Prelude.{String, Bool, not, Option, none, some, any, List, if◌then◌else◌}
use uwo_shared_platform.Prelude.Keys.{string_eq, ◌==◌}
use uwo_shared_platform.Prelude.Dict.{get}
use uwo_shared_platform.Contracts.Domain.{Product, product_value}
use uwo_shared_platform.ControlPlane.Authorization.{is_in}
use uwo_shared_platform.Gateway.Router.{GatewayConfig, TenantPolicy}

-- the `code` of an `AuthorizationError` or a `BillingError`
pub data AccessError : Type 0 where
  tenant_identity_mismatch unknown_tenant product_not_entitled model_not_entitled : AccessError
  credits_not_authorized : AccessError

pub data Access (A : Type 0) : Type 0 where
  granted : A → Access A
  refused : AccessError → Access A

-- `product in products`
abbrev pub is_product_in : Product → List Product → Bool
is_product_in p ps = any (λ q. product_value p == product_value q) ps

abbrev under : Option TenantPolicy → Product → String → Access (Unit {0})
under none product model = refused AccessError.unknown_tenant
under (some policy) product model =
    if not (is_product_in product policy.allowed_products)
    then refused AccessError.product_not_entitled
    else if not (is_in model policy.allowed_models)
    then refused AccessError.model_not_entitled
    else granted tt

-- `EntitlementAuthorizer.authorize`, with the tenant of the verified identity
unfoldable pub authorize : GatewayConfig → String → String → Product → String → Access (Unit {0})
authorize config identity_tenant requested_tenant product model =
    if not (identity_tenant == requested_tenant)
    then refused AccessError.tenant_identity_mismatch
    else under (get config.tenant_policies identity_tenant) product model

abbrev with_credits : Option TenantPolicy → String → Access String
with_credits none request_id = refused AccessError.credits_not_authorized
with_credits (some policy) request_id =
    if policy.billing_authorized
    then granted ("config:" ++ request_id)
    else refused AccessError.credits_not_authorized

-- `ConfigBillingAuthorizer.authorize`: the identifier of the authorization
unfoldable pub authorize_billing : GatewayConfig → String → String → Access String
authorize_billing config tenant_id request_id =
    with_credits (get config.tenant_policies tenant_id) request_id
