-- ===== src/Billing/Service/Accounts.antt =====
-- `create_account` and `set_account_status`.
use Prim.Native.String.{◌++◌}
use uwo_shared_platform.Prelude.{String, Bool, true, false, not, Option, none, some, [], ◌∷◌}
use uwo_shared_platform.Prelude.Int.{ℤ, pos, ◌+ℤ◌, ◌==ℤ◌}
use uwo_shared_platform.Prelude.Keys.{string_eq}
use uwo_shared_platform.Prelude.Dict.{contains}
use uwo_shared_platform.Errors.{Code, conflict, resource_not_found}
use uwo_shared_platform.Env.{Env, Json}
use uwo_shared_platform.Contracts.Domain.{VerifiedSubjectIdentity}
use uwo_shared_platform.Contracts.Billing.{BillingAccount, BillingAccountStatus}
use uwo_shared_platform.Contracts.Checks.{account_valid}
use uwo_shared_platform.Billing.World.{
  AuditEventType, Outcome, AccountMutationResult, IdempotencyResult, IdempotencyScope,
}
use uwo_shared_platform.Billing.Accounts
use uwo_shared_platform.Billing.Idempotency
use uwo_shared_platform.Billing.Authorizer.{require_platform_admin}
use uwo_shared_platform.Billing.Service.Common.{
  check_key, authorize, make_scope, account_of, is_closed, start_mutation, event, or_replay,
  guarded, fingerprint, finish,
}
use uwo_shared_platform.Billing.Action.{
  Act, return, gets, raise_when, construct, read_clock, emit, ◌>>=◌, ◌>>◌,
}

-- `isinstance(record.original_result, BillingAccount)`
abbrev pub pick_account : IdempotencyResult → Option BillingAccount
pick_account (IdempotencyResult.account_result a) = some a
pick_account _ = none

abbrev pub replayed_account : BillingAccount → AccountMutationResult
replayed_account a = record { account = a; created = false }

abbrev pub same_status : BillingAccountStatus → BillingAccountStatus → Bool
same_status BillingAccountStatus.active BillingAccountStatus.active = true
same_status BillingAccountStatus.suspended BillingAccountStatus.suspended = true
same_status BillingAccountStatus.closed BillingAccountStatus.closed = true
same_status _ _ = false

module _ ⦃env : Env⦄ (identity : VerifiedSubjectIdentity) (tenant_id : String) where
  unfoldable pub create_mutation :
      IdempotencyScope → String → String → BillingAccount → Act AccountMutationResult
  create_mutation scope key print account = do
    start_mutation
    _ ← Accounts.create account
    _ ← Idempotency.put (record {
      scope = scope;
      key = key;
      request_fingerprint = print;
      original_result = IdempotencyResult.account_result account;
    })
    return (record { account = account; created = true })

  unfoldable pub create_account : String → String → ℤ → Act AccountMutationResult
  unfolding create_mutation
  create_account idempotency_key request_id expected_version = do
    authorize (λ d. require_platform_admin d identity)
    check_key idempotency_key
    raise_when (not (expected_version ==ℤ pos 0)) (conflict Code.stale_version)
    known ← gets (λ w. contains w.directory.tenants tenant_id)
    raise_when (not known) (resource_not_found Code.unknown_tenant)
    timestamp ← read_clock
    let a : BillingAccount = record {
      account_id = "billing:" ++ tenant_id;
      tenant_id = tenant_id;
      status = BillingAccountStatus.active;
      created_at = timestamp;
      updated_at = timestamp;
      version = pos 1;
    }
    account ← construct (account_valid a) a
    scope ← make_scope "billing.account.create" tenant_id identity
    let print = fingerprint (
        ("tenant_id", Json.text tenant_id)
        ∷ ("expected_version", Json.number expected_version)
        ∷ [])
    attempt ← guarded request_id identity tenant_id (
        or_replay pick_account replayed_account scope idempotency_key print
          (create_mutation scope idempotency_key print account))
    finish
        (λ r.
          emit
            (record (event AuditEventType.account_created request_id Outcome.succeeded identity
              tenant_id) { account_id = some r.account.account_id }))
        attempt

  unfoldable pub set_account_status : BillingAccountStatus → ℤ → String → Act BillingAccount
  set_account_status status expected_version request_id = do
    authorize (λ d. require_platform_admin d identity)
    current ← account_of tenant_id
    raise_when (is_closed current.status) (conflict Code.billing_account_closed)
    raise_when (same_status current.status status) (conflict Code.status_unchanged)
    timestamp ← read_clock
    let a = record current {
      status = status;
      updated_at = timestamp;
      version = current.version +ℤ pos 1;
    }
    updated ← construct (account_valid a) a
    stored ← Accounts.update updated expected_version
    emit
        (record (event AuditEventType.account_status_changed request_id Outcome.succeeded identity
          tenant_id) { account_id = some stored.account_id })
    return stored
