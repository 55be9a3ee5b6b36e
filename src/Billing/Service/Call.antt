-- ===== src/Billing/Service/Call.antt =====
-- The calls of `PlatformBillingService` that change the repositories under a transaction, with
-- their arguments; `perform` drops the result and keeps the exception. `set_account_status`, which
-- writes outside a transaction, is not among them: it is called by itself.
use uwo_shared_platform.Prelude.{String, Bool}
use uwo_shared_platform.Prelude.Int.{ℤ}
use uwo_shared_platform.Env.{Env}
use uwo_shared_platform.Contracts.Domain.{VerifiedSubjectIdentity}
use uwo_shared_platform.Billing.Service.Accounts
use uwo_shared_platform.Billing.Service.Credits
use uwo_shared_platform.Billing.Service.Reserve
use uwo_shared_platform.Billing.Service.Reserve.{ReservationRequest}
use uwo_shared_platform.Billing.Service.Capture
use uwo_shared_platform.Billing.Service.Capture.{UsageReport}
use uwo_shared_platform.Billing.Service.Release
use uwo_shared_platform.Billing.Service.GatewayReserve
use uwo_shared_platform.Billing.Service.GatewayCapture
use uwo_shared_platform.Billing.Service.GatewayRelease
use uwo_shared_platform.Billing.Action.{Act, return, ◌>>=◌}

pub data Call : Type 0 where
  create_account : String → String → String → ℤ → Call
  grant_credits adjust_credits refund : String → ℤ → ℤ → String → String → Call
  reserve : String → ReservationRequest → String → ℤ → String → Call
  capture : String → UsageReport → ℤ → ℤ → String → String → Bool → Call
  release : String → ℤ → ℤ → String → String → Call
  reserve_for_gateway : String → ReservationRequest → ℤ → String → Call
  capture_for_gateway : String → String → UsageReport → String → String → Call
  release_for_gateway : String → String → String → String → Call

abbrev pub drop_result {ℓ} : {A : Type ℓ} → Act A → Act (Unit {0})
drop_result m = do _ ← m; return tt

module _ ⦃env : Env⦄ where
  unfoldable pub perform : VerifiedSubjectIdentity → Call → Act (Unit {0})
  perform i (Call.create_account t key request_id v) =
      drop_result (Accounts.create_account i t key request_id v)
  perform i (Call.grant_credits t n v key request_id) =
      drop_result (Credits.grant_credits i t n v key request_id)
  perform i (Call.adjust_credits t n v key request_id) =
      drop_result (Credits.adjust_credits i t n v key request_id)
  perform i (Call.refund t n v key request_id) = drop_result (Credits.refund i t n v key request_id)
  perform i (Call.reserve t q expires_at v key) =
      drop_result (Reserve.reserve i t q expires_at v key)
  perform i (Call.capture id u rv bv key request_id override) =
      drop_result (Capture.capture i id u rv bv key request_id override)
  perform i (Call.release id rv bv key request_id) =
      drop_result (Release.release i id rv bv key request_id)
  perform i (Call.reserve_for_gateway t q seconds key) =
      drop_result (GatewayReserve.reserve_for_gateway i t q seconds key)
  perform i (Call.capture_for_gateway t id u key request_id) =
      drop_result (GatewayCapture.capture_for_gateway i t id u key request_id)
  perform i (Call.release_for_gateway t id key request_id) =
      drop_result (GatewayRelease.release_for_gateway i t id key request_id)
