-- ===== src/Gateway/ContentSafety.antt =====
-- services/ai_gateway/content_safety.py: `ConfigContentSafetyAuthorizer`. `str.casefold` is a
-- parameter.
use Prim.Native.String.{◌++◌}
use uwo_shared_platform.Prelude.{String, not, Option, none, some, any, if◌then◌else◌}
use uwo_shared_platform.Prelude.Keys.{string_eq}
use uwo_shared_platform.Prelude.Dict.{get}
use uwo_shared_platform.Contracts.Text.{is_substring}
use uwo_shared_platform.Gateway.Router.{GatewayConfig, TenantPolicy}

-- a ContentSafetyError with its `code`
pub data Safety : Type 0 where
  safe : Safety
  denied : String → Safety

module _ (casefold : String → String) where
  abbrev under : Option TenantPolicy → String → String → Safety
  under none content direction = Safety.denied "content_safety_unavailable"
  under (some policy) content direction =
      if not policy.content_safety_enabled
      then Safety.denied "content_safety_unavailable"
      else if any (λ term. is_substring (casefold term) (casefold content))
          policy.content_safety_blocked_terms
      then Safety.denied ("unsafe_" ++ direction)
      else Safety.safe

  -- `_authorize`; the direction is "input" or "output"
  unfoldable pub authorize_content : GatewayConfig → String → String → String → Safety
  authorize_content config tenant_id content direction =
      under (get config.tenant_policies tenant_id) content direction
