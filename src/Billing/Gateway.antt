-- ===== src/Billing/Gateway.antt =====
-- services/platform_billing/gateway.py: `ServiceGatewayBilling`, the gateway's lifecycle of a charge
-- over the billing service.
use Prim.Native.String.{◌++◌}
use uwo_shared_platform.Prelude.{String, Option}
use uwo_shared_platform.Prelude.Int.{ℤ}
use uwo_shared_platform.Env.{Env}
use uwo_shared_platform.Contracts.Domain.{Product, VerifiedSubjectIdentity}
use uwo_shared_platform.Contracts.Billing.{BillingDecision, UsageDimensions}
use uwo_shared_platform.Contracts.Checks.{dimensions_valid}
use uwo_shared_platform.Billing.Action.{Act, return, construct, ◌>>=◌}
use uwo_shared_platform.Contracts.Text.{take_chars}
use uwo_shared_platform.Billing.Service.Reserve
use uwo_shared_platform.Billing.Service.GatewayReserve.{reserve_for_gateway}
use uwo_shared_platform.Billing.Service.GatewayCapture.{capture_for_gateway}
use uwo_shared_platform.Billing.Service.GatewayRelease.{release_for_gateway}

pub record GatewayReservation : Type 0 where
  pub reservation_id : String
  pub tenant_id : String
  pub request_id : String

-- the fields of the adapter beside the service
pub record ServiceGatewayBilling : Type 0 where
  pub executor : VerifiedSubjectIdentity
  pub estimated_microunits : ℤ
  pub reservation_seconds : ℤ

module _ ⦃env : Env⦄ where
  -- `_usage_id`
  unfoldable pub usage_id : String → String
  usage_id request_id = "usage:" ++ take_chars 32 (env.sha256_hex request_id)

  module _ (self : ServiceGatewayBilling) where
    unfoldable pub authorize_estimated_charge :
        String → Product → String → String → Act BillingDecision
    authorize_estimated_charge tenant_id product model request_id =
        Reserve.authorize_estimated_charge self.executor tenant_id self.estimated_microunits
          request_id

    unfoldable pub reserve : String → Product → String → String → Act GatewayReservation
    reserve tenant_id product model request_id = do
      result ←
          reserve_for_gateway self.executor tenant_id
            (record {
              product = product;
              model = model;
              request_id = request_id;
              amount_microunits = self.estimated_microunits;
            })
            self.reservation_seconds ("gateway-reserve:" ++ request_id)
      return (record {
        reservation_id = result.reservation.reservation_id;
        tenant_id = tenant_id;
        request_id = request_id;
      })

    unfoldable pub capture :
        GatewayReservation
        → String
        → Option String
        → String
        → Option String
        → ℤ
        → ℤ
        → ℤ
        → Act (Unit {0})
    unfolding usage_id
    capture r provider_id provider_model_id region provider_request_id input output total = do
      let d : UsageDimensions = record {
        input_tokens = input;
        output_tokens = output;
        total_tokens = total;
      }
      dimensions ← construct (dimensions_valid d) d
      _ ←
          capture_for_gateway self.executor r.tenant_id r.reservation_id
            (record {
              usage_event_id = usage_id r.request_id;
              provider_id = provider_id;
              provider_model_id = provider_model_id;
              region = region;
              provider_request_id = provider_request_id;
              dimensions = dimensions;
            })
            ("gateway-capture:" ++ r.request_id) r.request_id
      return tt

    unfoldable pub release_on_failure : GatewayReservation → Act (Unit {0})
    release_on_failure r = do
      _ ←
          release_for_gateway self.executor r.tenant_id r.reservation_id
            ("gateway-release:" ++ r.request_id) r.request_id
      return tt
